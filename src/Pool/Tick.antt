-- ===== src/Pool/Tick.antt =====
-- The two loops of `run` in src/core/ThreadPool.cpp that wake threads up and put them to sleep.
use snframe.Base.{
  ℕ, zero, suc, ◌+◌, ◌-◌, ◌%◌, ◌^◌, ◌≤◌, ◌<◌, ◌≡◌, ◌≢◌, refl, sym, ap, ◌∙◌, min, true, false, some,
  length, length-set, get_elem?, get_elem?-set_self, get_elem?-set_ne, get_elem?-inside, set,
  set-same, ltb, lt→ltb, le→ltb, arith,
}
use native.Mathlib.Decide.{ℕ_discrete}
use snframe.Pool.{Worker, ThreadPool, bound, wake, wake_from, wake_up, sleep, sleep_from, slow_down}
use snframe.Pool.Awake.{IsPool}

module _ {ℓ} {A : Type ℓ} where
  -- A thread that sleeps is awake afterwards, and counted.
  abbrev woken : ℕ → ThreadPool A → Worker A → ThreadPool A
  woken i p w = record p {
    threads = set p.threads i (record w { work = true });
    working_num = p.working_num + 1;
  }

  wake_lem :
      (p : ThreadPool A) (i : ℕ) (w : Worker A)
      → get_elem? p.threads i ≡ some w
      → w.work ≡ false
      → wake i p ≡ woken i p w
  unfolding wake
  wake_lem p i w e f = rw (wake, e, f) refl

  -- One thread more is awake.
  wake-IsPool :
      (p : ThreadPool A) (i : ℕ)
      → IsPool p
      → i ≡ p.working_num
      → i < length p.threads
      → IsPool (wake i p)
        × ((wake i p).working_num ≡ i + 1)
        × (length (wake i p).threads ≡ length p.threads)
  wake-IsPool p i h e inside =
      let (w, found) = get_elem?-inside p.threads i inside in
      let asleep : w.work ≡ false = h.awake i w found ∙ le→ltb i p.working_num (omega arith) in
      rw (wake_lem p i w found asleep) (
        record {
          counted = omega (arith, length-set p.threads i (record w { work = true }));
          awake = λ j v f. place w v j f;
        },
        omega arith,
        length-set p.threads i (record w { work = true }),
      )
    where
      place :
          (w v : Worker A) (j : ℕ)
          → get_elem? (set p.threads i (record w { work = true })) j ≡ some v
          → v.work ≡ ltb j (p.working_num + 1)
      place w v j f = elim (ℕ_discrete i j) [
        | yes here ↦
            let new : some v ≡ some (record w { work = true }) =
              sym (rw (← here) at f)
              ∙ get_elem?-set_self p.threads i (record w { work = true }) inside in
            work_of new ∙ sym (lt→ltb j (p.working_num + 1) (omega arith))
        | no other ↦
            h.awake j v (sym (get_elem?-set_ne p.threads i j (record w { work = true }) other) ∙ f)
            ∙ same j other
      ]
        where
          work_of : {u : Worker A} → some v ≡ some u → v.work ≡ u.work
          work_of q = cc

          same : (j : ℕ) → i ≢ j → ltb j p.working_num ≡ ltb j (p.working_num + 1)
          same j other = ground arith

  wake_from-IsPool :
      (n : ℕ) (p : ThreadPool A) (i : ℕ)
      → IsPool p
      → i ≡ p.working_num
      → i + n ≤ length p.threads
      → IsPool (wake_from i n p)
        × ((wake_from i n p).working_num ≡ i + n)
        × (length (wake_from i n p).threads ≡ length p.threads)
  unfolding wake_from
  wake_from-IsPool zero p i h e inside = (h, omega arith, refl)
  wake_from-IsPool (suc n) p i h e inside =
      let (k, counted, size) = wake-IsPool p i h e (omega arith) in
      let (r, more, kept) =
        wake_from-IsPool n (wake i p) (i + 1) k (sym counted) (omega (arith, size)) in
      (r, omega (arith, more), kept ∙ size)

  bound-between :
      (p : ThreadPool A) → IsPool p → (p.working_num ≤ bound p) × (bound p ≤ length p.threads)
  unfolding bound
  bound-between p h = (ground (arith, h.counted), ground (arith, h.counted))

  bound-least :
      (p : ThreadPool A) → IsPool p → bound p ≡ min (p.working_num + p.gradient) (length p.threads)
  unfolding bound
  bound-least p h = ground (arith, h.counted)

  -- Where threads sleep, `wake_up` wakes the next ones, as many as the gradient or all that sleep, and
  -- counts them; no thread is added or lost.
  pub wake_up-IsPool :
      (p : ThreadPool A)
      → IsPool p
      → p.working_num < length p.threads
      → IsPool (wake_up p)
        × ((wake_up p).working_num ≡ min (p.working_num + p.gradient) (length p.threads))
        × (length (wake_up p).threads ≡ length p.threads)
  unfolding wake_up
  wake_up-IsPool p h sleepers =
      let between = bound-between p h in
      let (k, counted, size) =
        wake_from-IsPool (bound p - p.working_num) p p.working_num h refl
          (omega (arith, between)) in
      rw (lt→ltb p.working_num (length p.threads) sleepers)
        (k, counted ∙ omega (arith, between, bound-least p h), size)

  -- A thread that sleeps is put to sleep: only the count changes.
  sleep_lem :
      (p : ThreadPool A) (i : ℕ) (w : Worker A)
      → get_elem? p.threads i ≡ some w
      → w.work ≡ false
      → sleep i p ≡ record p { working_num = (p.working_num + 2 ^ 32 - 1) % 2 ^ 32 }
  unfolding sleep
  sleep_lem p i w e f =
      rw (sleep, e, set-same p.threads i (record w { work = false }) (rw f at e)) refl

  sleep_from_lem :
      (n : ℕ) (p : ThreadPool A) (i : ℕ)
      → ((j : ℕ) (w : Worker A) → i ≤ j → get_elem? p.threads j ≡ some w → w.work ≡ false)
      → i + n ≤ length p.threads
      → n < 2 ^ 32
      → p.working_num < 2 ^ 32
      → sleep_from i n p ≡ record p { working_num = (p.working_num + 2 ^ 32 - n) % 2 ^ 32 }
  unfolding sleep_from
  sleep_from_lem zero p i asleep inside small less =
      ap (λ v. record p { working_num = v }) (none_less p.working_num less)
    where
      none_less : (v : ℕ) → v < 2 ^ 32 → v ≡ (v + 2 ^ 32 - 0) % 2 ^ 32
      none_less v h = omega arith
  sleep_from_lem (suc n) p i asleep inside small less =
      let (w, found) = get_elem?-inside p.threads i (omega arith) in
      rw (sleep_lem p i w found (asleep i w (omega arith) found)) (
        sleep_from_lem n (record p { working_num = (p.working_num + 2 ^ 32 - 1) % 2 ^ 32 }) (i + 1)
          (λ j v k. asleep j v (omega arith)) (omega arith) (omega arith) (omega arith)
        ∙ ap (λ v. record p { working_num = v }) (one_less p.working_num less))
    where
      one_less :
          (v : ℕ)
          → v < 2 ^ 32
          → ((v + 2 ^ 32 - 1) % 2 ^ 32 + 2 ^ 32 - n) % 2 ^ 32 ≡ (v + 2 ^ 32 - suc n) % 2 ^ 32
      one_less v h = omega arith

  -- The loop of `run` that should put threads to sleep: on a pool whose awake threads are the first
  -- ones it changes no thread at all, and lowers the count, modulo 2 ^ 32, by the number of threads
  -- that it passes over, all of them asleep before.
  pub slow_down-sleeps :
      (p : ThreadPool A)
      → IsPool p
      → length p.threads < 2 ^ 32
      → (slow_down p).threads ≡ p.threads
        × ((slow_down p).working_num
            ≡ (p.working_num
                + 2 ^ 32
                - (min (p.working_num + p.gradient) (length p.threads) - p.working_num))
              % 2 ^ 32)
  unfolding slow_down
  slow_down-sleeps p h small =
      let between = bound-between p h in
      rw
        (
          sleep_from_lem (bound p - p.working_num) p p.working_num
              (λ j w k e. h.awake j w e ∙ le→ltb j p.working_num k) (omega (arith, between))
              (omega (arith, between)) (omega (arith, h.counted)),
          bound-least p h,
        )
        (refl, refl)
