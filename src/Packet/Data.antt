-- ===== src/Packet/Data.antt =====
-- `set_data` of src/base/PbBuf.cpp: what it makes where the block is or becomes large enough, and that it
-- writes past the block where `resize` fails or the 16-bit total wraps.
use snframe.Base.{
  ℕ, zero, suc, ◌+◌, ◌-◌, ◌%◌, ◌^◌, ◌≤◌, ◌<◌, ◌≡◌, refl, ap, ◌⊎◌, inl, inr, Bool, true, false, none,
  some, List, ◌++◌, length, take, length-take, length-append, get_or-append_left, arith, lt→ltb,
  le→ltb, lt→leb, ret, fault,
}
use native.Mathlib.Decide.{dec_lt}
use snframe.Memory.{Block}
use snframe.Packet.{Msg, Realloc, resize, fresh, set_data, prepare}
use snframe.Packet.Fields.{header, header-cong}
use snframe.Packet.Pack.{packed}
use snframe.Packet.Body.{IsPacket, packed-IsPacket, store_data-packed, store_data-fault}

length-fresh : (i k : ℕ) (junk : ℕ → ℕ) → length (fresh i k junk) ≡ k
unfolding fresh
length-fresh i zero junk = refl
length-fresh i (suc k) junk = ap suc (length-fresh (suc i) k junk)

-- A message that holds a block of its capacity, with room for a header.
pub record Holds (msg : Msg) (xs : Block) : Type 0 where
  pub held : msg.m_data ≡ some xs
  pub exact : length xs ≡ msg.m_alloc
  pub header_room : 27 ≤ length xs

-- What `prepare` hands on: a block with the old header.
record IsPrepared (xs : Block) (total : ℕ) (r : Msg × Bool) : Type 0 where
  block : Block
  held : r.0.m_data ≡ some block
  room : total ≤ length block
  head : header block ≡ header xs

kept :
    (xs : Block) (total : ℕ) (r : Msg × Bool)
    → r.0.m_data ≡ some xs
    → total ≤ length xs
    → IsPrepared xs total r
kept xs total r e h = record { block = xs; held = e; room = h; head = refl }

-- The blocks that `prepare` may hand on.
prepare-small :
    (answer : Realloc) (msg : Msg) (total : ℕ)
    → total ≤ msg.m_alloc
    → prepare answer msg total ≡ (msg, false)
unfolding prepare
prepare-small answer msg total h = rw (le→ltb msg.m_alloc total h)

prepare-grown :
    (junk : ℕ → ℕ) (msg : Msg) (xs : Block) (total : ℕ)
    → msg.m_data ≡ some xs
    → msg.m_alloc < total
    → prepare (some junk) msg total ≡ (
      record msg {
        m_data = some (xs ++ fresh (length xs) (total - length xs) junk);
        m_alloc = total;
      },
      true,
    )
unfolding prepare resize
prepare-grown junk msg xs total e h = rw (lt→ltb msg.m_alloc total h, lt→leb total msg.m_alloc h, e)

prepare-refused : (msg : Msg) (total : ℕ) → (prepare none msg total).0 ≡ msg
unfolding prepare resize
prepare-refused msg total = ground arith

prepare-IsPrepared :
    (answer : Realloc) (msg : Msg) (xs : Block) (total : ℕ)
    → Holds msg xs
    → (total ≤ msg.m_alloc) ⊎ ((junk : ℕ → ℕ) × (answer ≡ some junk))
    → IsPrepared xs total (prepare answer msg total)
prepare-IsPrepared answer msg xs total h (inl small) =
    rw (prepare-small answer msg total small)
      (kept xs total (msg, false) h.held (omega (arith, h.exact)))
prepare-IsPrepared answer msg xs total h (inr (junk, e)) = elim (dec_lt msg.m_alloc total) [
  | yes short ↦
      rw (e, prepare-grown junk msg xs total h.held short)
        (record {
          block = xs ++ fresh (length xs) (total - length xs) junk;
          held = refl;
          room = omega (
            arith,
            length-append xs (fresh (length xs) (total - length xs) junk),
            length-fresh (length xs) (total - length xs) junk,
          );
          head = header-cong _ xs λ j k. get_or-append_left xs _ j 0 (omega (arith, h.header_room));
        })
  | no small ↦
      rw (prepare-small answer msg total (omega arith))
        (kept xs total (msg, false) h.held (omega (arith, h.exact)))
]

-- `set_data` with a body of 1 to 65508 bytes, where the capacity suffices or realloc grants the
-- block: it answers true, and the message is then a packet with the old header and that body.
pub set_data-IsPacket :
    (answer : Realloc) (msg : Msg) (xs : Block) (src : List ℕ) (len : ℕ)
    → Holds msg xs
    → len ≤ length src
    → 1 ≤ len
    → len + 27 < 2 ^ 16
    → (len + 27 ≤ msg.m_alloc) ⊎ ((junk : ℕ → ℕ) × (answer ≡ some junk))
    → (m : Msg) × (set_data answer msg (some src) len ≡ ret (m, true))
      × IsPacket m (header xs) (take len src)
unfolding set_data
set_data-IsPacket answer msg xs src len h enough lo hi g =
    let ready = prepare-IsPrepared answer msg xs (len + 27) h g in
    let old = (prepare answer msg (len + 27)).0 in
    let body = take len src in
    let size : length body ≡ len = omega (arith, length-take len src) in
    let m = record old { m_data = some (packed ready.block body); m_len = len + 27 } in
    (
      m,
      rw small (
          store_data-packed old (prepare answer msg (len + 27)).1 ready.block src len (len + 27)
            ready.held enough lo (omega (arith, ready.room))),
      rw ready.head at (
          packed-IsPacket m ready.block body (omega (arith, ready.room, size)) (omega (arith, size))
            (omega (arith, size)) refl (omega (arith, size))),
    )
  where
    small : (len + 27) % 2 ^ 16 ≡ len + 27
    small = omega arith

-- Where realloc refuses, or where 27 + len passes the 16 bits of the total, and the capacity is less
-- than the packet needs, `set_data` stores past the end of the block.
pub set_data-fault :
    (answer : Realloc) (msg : Msg) (xs : Block) (src : List ℕ) (len : ℕ)
    → Holds msg xs
    → len ≤ length src
    → len < 2 ^ 16
    → msg.m_alloc < len + 27
    → (answer ≡ none) ⊎ (2 ^ 16 ≤ len + 27)
    → set_data answer msg (some src) len ≡ fault
unfolding set_data
set_data-fault answer msg xs src len h enough small short (inl refused) = rw refused (
    store_data-fault (prepare none msg total).0 (prepare none msg total).1 xs src len total
      (rw (prepare-refused msg total) h.held) enough (omega (arith, h.exact)))
  where
    total : ℕ
    total = (len + 27) % 2 ^ 16
set_data-fault answer msg xs src len h enough small short (inr wraps) =
    rw (prepare-small answer msg total (omega (arith, h.exact, h.header_room)))
      (store_data-fault msg false xs src len total h.held enough (omega (arith, h.exact)))
  where
    total : ℕ
    total = (len + 27) % 2 ^ 16
