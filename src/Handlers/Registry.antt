-- ===== src/Handlers/Registry.antt =====
-- Which callback of src/core/PbProtocolHandler.cpp a packet reaches.
use snframe.Base.{
  ℕ, ◌^◌, ◌≤◌, ◌<◌, ◌≡◌, refl, Bool-cases, inl, inr, true, ◌&&◌, Option, some, length, ◌==◌,
  if◌then◌else◌, ret, ◌>>=◌, arith,
}
use snframe.Memory.{Block, htons-lt, u16}
use snframe.Packet.{Msg}
use snframe.Packet.Header.{get_protocl}
use snframe.Packet.Fields.{header}
use snframe.Packet.Readers.{IsBytes, readers-header}
use snframe.Handlers.{Handlers, handler_id, lookup, regist, handler}

header-small : (xs : Block) → ((header xs).service_id < 2 ^ 16) × ((header xs).cmd_id < 2 ^ 16)
unfolding header
header-small xs = (htons-lt (u16 xs 16), htons-lt (u16 xs 18))

ids-apart :
    (sid cid a b : ℕ)
    → sid < 2 ^ 16
    → cid < 2 ^ 16
    → a < 2 ^ 16
    → b < 2 ^ 16
    → (handler_id sid cid == handler_id a b) ≡ ((a == sid) && (b == cid))
ids-apart sid cid a b h k l m = ground arith

module _ {ℓ} {C : Type ℓ} where
  -- A packet of at least 27 bytes, after a callback is registered for ids of 16 bits: if the packet
  -- carries these two ids, the callback is called, whatever was registered before; if it carries
  -- others, the one that was called before is called.
  pub handler-regist :
      (sid cid : ℕ) (cb : Option C) (hs : Handlers C) (msg : Msg) (xs : Block)
      → sid < 2 ^ 16
      → cid < 2 ^ 16
      → msg.m_data ≡ some xs
      → 27 ≤ length xs
      → IsBytes xs
      → handler ((regist true sid cid cb hs).0) msg ≡ (
          if ((header xs).service_id == sid) && ((header xs).cmd_id == cid)
          then ret cb
          else handler hs msg)
  unfolding handler regist lookup
  handler-regist sid cid cb hs msg xs s c e long b =
      rw
        (
          protocl,
          ◌>>=◌,
          ids-apart sid cid (header xs).service_id (header xs).cmd_id s c (header-small xs).0
              (header-small xs).1,
        )
        (elim (Bool-cases (((header xs).service_id == sid) && ((header xs).cmd_id == cid))) [
          | inl q ↦ rw q refl
          | inr q ↦ rw q refl
        ])
    where
      protocl : get_protocl msg ≡ ret (handler_id (header xs).service_id (header xs).cmd_id)
      protocl = (readers-header msg xs e long b).7
