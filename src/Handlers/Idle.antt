-- ===== src/Handlers/Idle.antt =====
-- The pool that `Recver::start` of src/core/Recver.cpp makes: `start(false)` creates its threads, and no
-- thread of `run()`.
use mathlib.Core.Path.{subst}
use snframe.Base.{ℕ, ◌≤◌, ◌≡◌, ap, ◌∙◌, false, some, List, [], length, arith}
use snframe.Decimal.{atoi}
use snframe.Packet.{Msg}
use snframe.Pool.{init, start}
use snframe.Pool.Awake.{start-IsPool}
use snframe.Pool.Steps.{of_thread, Running, Reach, running}
use snframe.Pool.Idle.{idle_threads, started-empty}
use snframe.Handlers.{Recver, recver_start}

module _ {ℓ} {C : Type ℓ} where
  start_pool :
      (value : List ℕ) (r : Recver C)
      → 1 ≤ atoi value
      → (recver_start (some value) r).pool ≡ start false (init (atoi value) 10 4 false)
  unfolding recver_start
  start_pool value r h = ground arith

  -- Where the configuration asks for at least one thread, so many are created; but whatever is added
  -- and handled later, in every interleaving, the threads from the eleventh on are never given a job
  -- and handle none.
  pub recver_start-idle :
      (value : List ℕ) (r : Recver C) (s : Running Msg) (i : ℕ)
      → 1 ≤ atoi value
      → Reach false (running (recver_start (some value) r).pool) s
      → 10 ≤ i
      → (length (recver_start (some value) r).pool.threads ≡ atoi value)
        × (of_thread i s.placed ≡ [])
        × (of_thread i s.done ≡ [])
  recver_start-idle value r s i h reach late =
      let (pool, size, awake) = start-IsPool {A = Msg} false false (atoi value) 10 4 in
      let (placed, done) =
        idle_threads (start false (init (atoi value) 10 4 false)) (omega (arith, awake))
          (λ j. started-empty false false (atoi value) 10 4 j) s
          (subst (λ p. Reach false (running p) s) (start_pool value r h) reach) i
          (omega (arith, awake)) in
      (ap (λ p. length p.threads) (start_pool value r h) ∙ size, placed, done)
