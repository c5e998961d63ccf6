-- ===== src/Pool/Queues.antt =====
-- The queues of the threads of src/core/ThreadPool.cpp: the thread of `run()` changes none of them.
use snframe.Base.{
  ℕ, zero, suc, ◌+◌, ◌-◌, ◌%◌, ◌^◌, ◌≤◌, ◌≡◌, ◌≢◌, refl, sym, ◌∙◌, Bool, Bool-cases, ◌⊎◌, inl, inr,
  true, false, none, some, List, [], ◌∷◌, ◌++◌, length, length-append, length-set, get_elem?,
  get_elem?-set_self, get_elem?-set_ne, get_elem?-lt, set, ltb, if◌then◌else◌, arith,
}
use native.Mathlib.Decide.{ℕ_discrete}
use snframe.Pool.{
  Worker, ThreadPool, create_thread, create_threads, wake, wake_from, wake_up, sleep, sleep_from,
  slow_down, bound, run,
}
use snframe.Pool.Steps.{queue_at}

module _ {ℓ} {A : Type ℓ} where
  pub get_elem?_cases :
      (ws : List (Worker A)) (i : ℕ)
      → (get_elem? ws i ≡ none) ⊎ ((w : Worker A) × (get_elem? ws i ≡ some w))
  get_elem?_cases [] i = inl refl
  get_elem?_cases (w ∷ ws) zero = inr (w, refl)
  get_elem?_cases (w ∷ ws) (suc i) = get_elem?_cases ws i

  pub queue_at_found :
      (ws : List (Worker A)) (i : ℕ) (w : Worker A)
      → get_elem? ws i ≡ some w
      → queue_at i ws ≡ w.buf
  unfolding queue_at
  queue_at_found ws i w e = rw (queue_at, e) refl

  pub queue_at-set_self :
      (ws : List (Worker A)) (i : ℕ) (w v : Worker A)
      → get_elem? ws i ≡ some w
      → queue_at i (set ws i v) ≡ v.buf
  queue_at-set_self ws i w v e =
      queue_at_found (set ws i v) i v (get_elem?-set_self ws i v (get_elem?-lt ws i w e))

  pub queue_at-set_ne :
      (ws : List (Worker A)) (i j : ℕ) (v : Worker A)
      → i ≢ j
      → queue_at j (set ws i v) ≡ queue_at j ws
  unfolding queue_at
  queue_at-set_ne ws i j v other = rw (queue_at, get_elem?-set_ne ws i j v other) refl

  pub queue_at-push :
      (ws : List (Worker A)) (j : ℕ) (v : Worker A)
      → v.buf ≡ []
      → queue_at j (ws ++ v ∷ []) ≡ queue_at j ws
  unfolding queue_at
  queue_at-push [] zero v e = e
  queue_at-push [] (suc j) v e = refl
  queue_at-push (w ∷ ws) zero v e = refl
  queue_at-push (w ∷ ws) (suc j) v e = queue_at-push ws j v e

  -- No thread is lost, and the queues are as they were.
  pub record Kept (p q : ThreadPool A) : Type ℓ where
    pub longer : length p.threads ≤ length q.threads
    pub queues : (j : ℕ) → queue_at j q.threads ≡ queue_at j p.threads

  Kept-refl : (p : ThreadPool A) → Kept p p
  Kept-refl p = record { longer = omega arith; queues = λ j. refl }

  Kept-trans : {p q r : ThreadPool A} → Kept p q → Kept q r → Kept p r
  Kept-trans k l = record {
    longer = omega (arith, k.longer, l.longer);
    queues = λ j. l.queues j ∙ k.queues j;
  }

  -- A thread is changed, and not its queue.
  set-Kept :
      (p : ThreadPool A) (i n : ℕ) (w v : Worker A)
      → get_elem? p.threads i ≡ some w
      → v.buf ≡ w.buf
      → Kept p (record p { threads = set p.threads i v; working_num = n })
  set-Kept p i n w v e f = record {
    longer = omega (arith, length-set p.threads i v);
    queues = λ j. elim (ℕ_discrete i j) [
      | yes here ↦
          rw (← here)
            (queue_at-set_self p.threads i w v e ∙ f ∙ sym (queue_at_found p.threads i w e))
      | no other ↦ queue_at-set_ne p.threads i j v other
    ];
  }

  pub create_threads-Kept : (n : ℕ) (p : ThreadPool A) → Kept p (create_threads n p)
  unfolding create_threads create_thread
  create_threads-Kept zero p = Kept-refl p
  create_threads-Kept (suc n) p = Kept-trans created (create_threads-Kept n (create_thread p))
    where
      created : Kept p (create_thread p)
      created = record {
        longer = omega (
          arith,
          length-append p.threads
              (record { work = ltb (length p.threads) p.min_threads; buf = [] } ∷ []),
        );
        queues = λ j. queue_at-push p.threads j _ refl;
      }

  -- The waking and the sleeping of one thread.
  wake-Kept : (i : ℕ) (p : ThreadPool A) → Kept p (wake i p)
  unfolding wake
  wake-Kept i p = elim (get_elem?_cases p.threads i) [
    | inl e ↦ rw (wake, e) (Kept-refl p)
    | inr (w, e) ↦ elim (Bool-cases w.work) [
      | inl f ↦ rw (wake, e, f) (Kept-refl p)
      | inr f ↦
          rw (wake, e, f) (set-Kept p i (p.working_num + 1) w (record w { work = true }) e refl)
    ]
  ]

  sleep-Kept : (i : ℕ) (p : ThreadPool A) → Kept p (sleep i p)
  unfolding sleep
  sleep-Kept i p = elim (get_elem?_cases p.threads i) [
    | inl e ↦ rw (sleep, e) (Kept-refl p)
    | inr (w, e) ↦
        rw (sleep, e)
          (set-Kept p i ((p.working_num + 2 ^ 32 - 1) % 2 ^ 32) w (record w { work = false }) e
            refl)
  ]

  wake_from-Kept : (n i : ℕ) (p : ThreadPool A) → Kept p (wake_from i n p)
  unfolding wake_from
  wake_from-Kept zero i p = Kept-refl p
  wake_from-Kept (suc n) i p = Kept-trans (wake-Kept i p) (wake_from-Kept n (i + 1) (wake i p))

  sleep_from-Kept : (n i : ℕ) (p : ThreadPool A) → Kept p (sleep_from i n p)
  unfolding sleep_from
  sleep_from-Kept zero i p = Kept-refl p
  sleep_from-Kept (suc n) i p = Kept-trans (sleep-Kept i p) (sleep_from-Kept n (i + 1) (sleep i p))

  if-Kept : (b : Bool) (p q r : ThreadPool A) → Kept p q → Kept p r → Kept p (if b then q else r)
  if-Kept b p q r k l = elim (Bool-cases b) [ inl e ↦ rw e k | inr e ↦ rw e l ]

  wake_up-Kept : (p : ThreadPool A) → Kept p (wake_up p)
  unfolding wake_up
  wake_up-Kept p =
      if-Kept (ltb p.working_num (length p.threads)) p _ p
        (wake_from-Kept (bound p - p.working_num) p.working_num p) (Kept-refl p)

  slow_down-Kept : (p : ThreadPool A) → Kept p (slow_down p)
  unfolding slow_down
  slow_down-Kept p = sleep_from-Kept (bound p - p.working_num) p.working_num p

  -- A turn of `run()`.
  pub run-Kept : (temp : ℕ) (p : ThreadPool A) → Kept p (run temp p)
  unfolding run
  run-Kept temp p =
      if-Kept (ltb (length p.threads) p.max_threads) p _ _ (create_threads-Kept _ p)
        (if-Kept _ p _ _ (Kept-trans (woken _) (slow_down-Kept _)) (woken _))
    where
      woken : (b : Bool) → Kept p (if b then wake_up p else p)
      woken b = if-Kept b p _ _ (wake_up-Kept p) (Kept-refl p)
