-- ===== src/Pool/Idle.antt =====
-- The threads of src/core/ThreadPool.cpp that are asleep when the pool starts, where no thread of
-- `run()` wakes them.
use mathlib.Core.Path.{subst}
use snframe.Base.{
  ℕ, ◌≤◌, ◌<◌, ◌≡◌, refl, sym, ap, ◌∙◌, Bool, true, false, List, [], ◌∷◌, ◌++◌, arith,
}
use snframe.Pool.{ThreadPool, start, init}
use snframe.Pool.Steps.{
  of_thread, queue_at, Running, Step, Reach, here, next, chooses, places, takes, handles, turns,
  running,
}
use snframe.Pool.Queues.{create_threads-Kept}
use snframe.Pool.Sections.{all_below, all_below_cons, all_below_middle, choose_inv, take_front_inv}
use snframe.Pool.Jobs.{next_index-below, place-working_num}
use snframe.Pool.Order.{Reach-Ordered}

module _ {ℓ} {A : Type ℓ} where
  -- Only the first `n` threads have been named.
  record Idle (n : ℕ) (s : Running A) : Type ℓ where
    working : s.pool.working_num ≡ n
    placing_below : all_below n s.placing ≡ true
    placed_below : all_below n s.placed ≡ true

  all_below_push :
      (n : ℕ) (jobs : List (ℕ × A)) (i : ℕ) (job : A)
      → i < n
      → all_below n jobs ≡ true
      → all_below n (jobs ++ (i, job) ∷ []) ≡ true
  unfolding all_below
  all_below_push n [] i job low h = ground arith
  all_below_push n ((j, x) ∷ jobs) i job low h = ground (arith, all_below_push n jobs i job low)

  not_named :
      (n i : ℕ) (jobs : List (ℕ × A)) → n ≤ i → all_below n jobs ≡ true → of_thread i jobs ≡ []
  unfolding all_below of_thread
  not_named n i [] le h = refl
  not_named n i ((j, x) ∷ jobs) le h = ground (arith, not_named n i jobs le)

  Step-Idle : {s t : Running A} (n : ℕ) → 1 ≤ n → Step false s t → Idle n s → Idle n t
  Step-Idle n some_awake (chooses s p i job h) d =
      let (same, named, inside) = choose_inv s.pool p i h in
      record {
        working = ap (λ q. q.working_num) same ∙ d.working;
        placing_below =
            all_below_cons n i job s.placing
              (omega (arith, named, d.working, next_index-below s.pool (omega (arith, d.working))))
              d.placing_below;
        placed_below = d.placed_below;
      }
  Step-Idle n some_awake (places s i job before after h) d =
      let (low, rest) =
        all_below_middle n before i job after
          (subst (λ l. all_below n l ≡ true) h d.placing_below) in
      record {
        working = place-working_num s.pool i job ∙ d.working;
        placing_below = rest;
        placed_below = all_below_push n s.placed i job low d.placed_below;
      }
  Step-Idle n some_awake (takes s p i job none_held h) d =
      let (w, rest, found, front, same) = take_front_inv s.pool p i job h in
      record {
        working = ap (λ q. q.working_num) same ∙ d.working;
        placing_below = d.placing_below;
        placed_below = d.placed_below;
      }
  Step-Idle n some_awake (handles s i job before after h) d = record {
    working = d.working;
    placing_below = d.placing_below;
    placed_below = d.placed_below;
  }
  Step-Idle n some_awake (turns s temp on) d = absurd cc

  Reach-Idle :
      (p : ThreadPool A) (s : Running A)
      → 1 ≤ p.working_num
      → Reach false (running p) s
      → Idle p.working_num s
  unfolding running all_below
  Reach-Idle p s some_awake here = record {
    working = refl;
    placing_below = refl;
    placed_below = refl;
  }
  Reach-Idle p s some_awake (next r step) =
      Step-Idle p.working_num some_awake step (Reach-Idle p _ some_awake r)

  pub started-empty :
      (automatic single : Bool) (most least value i : ℕ)
      → queue_at i (start {A = A} automatic (init most least value single)).threads ≡ []
  unfolding start init queue_at
  started-empty automatic single most least value i =
      (create_threads-Kept _ (init most least value single)).queues i

  -- A pool whose queues are empty runs without the thread of `run()`: whatever the callers of `addJob`
  -- and the threads do, the threads that are asleep at the start are never given a job, and handle none.
  pub idle_threads :
      (p : ThreadPool A)
      → 1 ≤ p.working_num
      → ((i : ℕ) → queue_at i p.threads ≡ [])
      → (s : Running A) → Reach false (running p) s
      → (i : ℕ) → p.working_num ≤ i
      → (of_thread i s.placed ≡ []) × (of_thread i s.done ≡ [])
  idle_threads p some_awake empty s r i asleep =
      let d = Reach-Idle p s some_awake r in
      let o = Reach-Ordered false p empty s r in
      let unnamed = not_named p.working_num i s.placed asleep d.placed_below in
      (unnamed, front_nil (of_thread i s.done) _ (sym (o.in_order i) ∙ unnamed))
    where
      front_nil : (xs ys : List A) → xs ++ ys ≡ [] → xs ≡ []
      front_nil [] ys e = refl
      front_nil (x ∷ xs) ys e = absurd cc
