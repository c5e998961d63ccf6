-- ===== src/Handlers.antt =====
-- `PbProtocolHandler` of src/core/PbProtocolHandler.cpp, the registry of callbacks by service and
-- command id, and `Recver` of src/core/Recver.cpp, which handles a packet or gives it to the pool.
-- A callback is a value of any type, or NULL; which one is called is the result.
pub mod Registry
pub mod Idle
mod Tests
use snframe.Base.{
  ℕ, ◌+◌, ◌*◌, ◌%◌, ◌^◌, Bool, true, false, Option, none, some, List, [], ◌∷◌, ◌==◌, if◌then◌else◌,
  Outcome, ret, ◌>>=◌,
}
use snframe.Packet.{Msg}
use snframe.Packet.Header.{get_protocl}
use snframe.Decimal.{atoi}
use snframe.Pool.{ThreadPool, init, start, add_job}

abbrev pub Handlers {ℓ} : Type ℓ → Type ℓ
Handlers C = List (ℕ × Option C)

-- `(uint32_t)sid << 16 | cid`, for numbers of 16 bits.
abbrev pub handler_id : ℕ → ℕ → ℕ
handler_id sid cid = sid * 2 ^ 16 + cid

module _ {ℓ} {C : Type ℓ} where
  unfoldable pub lookup : ℕ → Handlers C → Option (Option C)
  lookup id [] = none
  lookup id ((key, cb) ∷ hs) = if key == id then some cb else lookup id hs

  -- `m_handler[id] = handler`, where calloc has granted the entry; `false` stands for the result -1.
  unfoldable pub regist : Bool → ℕ → ℕ → Option C → Handlers C → Handlers C × Bool
  regist granted sid cid cb hs =
      if granted then ((handler_id sid cid, cb) ∷ hs, true) else (hs, false)

  -- The callback that is called.
  unfoldable pub handler : Handlers C → Msg → Outcome (Option C)
  handler hs msg =
      get_protocl msg >>= λ id. ret (elim (lookup id hs) [ none ↦ none | some cb ↦ cb ])

pub record Recver {ℓ} (C : Type ℓ) : Type ℓ where
  pub num : ℕ
  pub pool : ThreadPool Msg
  pub recv_chat_pkts : ℕ
  pub called : List (Option C)

module _ {ℓ} {C : Type ℓ} where
  -- `handler` and `getData`.
  unfoldable pub recver_handler : Handlers C → Msg → Recver C → Outcome (Recver C)
  recver_handler hs msg r = handler hs msg >>= λ cb.
      ret (record r { recv_chat_pkts = (r.recv_chat_pkts + 1) % 2 ^ 32; called = cb ∷ r.called })

  unfoldable pub add_data : Handlers C → Msg → Recver C → Outcome (Recver C)
  add_data hs msg r =
      if r.num == 0
      then recver_handler hs msg r
      else (add_job msg r.pool >>= λ p. ret (record r { pool = p }))

  -- `start`, on the value of ProcessThread. A negative number stands for its 32 bits.
  unfoldable pub recver_start : Option (List ℕ) → Recver C → Recver C
  recver_start none r = r
  recver_start (some process_thread) r =
      let n = atoi process_thread in
      if n == 0
      then record r { num = n }
      else record r { num = n; pool = start false (init n 10 4 false) }
