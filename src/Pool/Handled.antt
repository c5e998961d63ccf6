-- ===== src/Pool/Handled.antt =====
-- The threads of src/core/ThreadPool.cpp take their jobs and handle them in order.
use mathlib.Core.List.{append_assoc}
use mathlib.Core.Path.{subst}
use snframe.Base.{
  ℕ, ◌≤◌, ◌≡◌, ◌≢◌, refl, sym, ap, ◌∙◌, true, some, List, [], ◌∷◌, ◌++◌, length, length-append,
  length-set, get_elem?, set, arith,
}
use native.Mathlib.Decide.{ℕ_discrete}
use snframe.Pool.{Worker, ThreadPool, take_front, run}
use snframe.Pool.Steps.{of_thread, queue_at, Running}
use snframe.Pool.Queues.{queue_at_found, queue_at-set_self, queue_at-set_ne, run-Kept}
use snframe.Pool.Sections.{
  of_thread-append, of_thread_own, of_thread_other, all_below, all_below_more, take_front_inv,
}
use snframe.Pool.Ordered.{Ordered, of_thread-push_own, of_thread-push_other}

module _ {ℓ} {A : Type ℓ} where
  alone : (x : A) (xs ys : List A) → length (xs ++ x ∷ ys) ≤ 1 → (xs ≡ []) × (ys ≡ [])
  alone x [] [] h = (refl, refl)
  alone x [] (y ∷ ys) h = absurd (omega arith)
  alone x (z ∷ xs) ys h = absurd (omega (arith, length-append xs (x ∷ ys)))

  pub takes-Ordered :
      (s : Running A) (p : ThreadPool A) (i : ℕ) (job : A)
      → Ordered s
      → of_thread i s.holding ≡ []
      → take_front i s.pool ≡ some (job, p)
      → Ordered (record s { pool = p; holding = (i, job) ∷ s.holding })
  takes-Ordered s p i job o none_held h =
      let (w, rest, found, front, same) = take_front_inv s.pool p i job h in
      subst (λ q. Ordered (record s { pool = q; holding = (i, job) ∷ s.holding })) (sym same)
        (record {
          in_order = λ j. elim (ℕ_discrete i j) [
            | yes e ↦
                subst
                  (λ j.
                    of_thread j s.placed
                    ≡ of_thread j s.done
                      ++ (of_thread j ((i, job) ∷ s.holding)
                          ++ queue_at j (set s.pool.threads i (record w { buf = rest }))))
                  e (o.in_order i ∙ ap (λ l. of_thread i s.done ++ l) (moves w rest found front))
            | no other ↦
                o.in_order j
                ∙ ap (λ q. of_thread j s.done ++ (of_thread j s.holding ++ q))
                    (sym (queue_at-set_ne s.pool.threads i j (record w { buf = rest }) other))
                ∙ ap
                    (λ l.
                      of_thread j s.done
                      ++ (l ++ queue_at j (set s.pool.threads i (record w { buf = rest }))))
                    (sym (of_thread_other j i job s.holding other))
          ];
          one = λ j. elim (ℕ_discrete i j) [
            | yes e ↦
                subst (λ j. length (of_thread j ((i, job) ∷ s.holding)) ≤ 1) e
                  (rw (of_thread_own i job s.holding, none_held) (omega arith))
            | no other ↦ rw (of_thread_other j i job s.holding other) (o.one j)
          ];
          none_lost = o.none_lost;
          chosen =
              subst (λ n. all_below n s.placing ≡ true)
                (sym (length-set s.pool.threads i (record w { buf = rest }))) o.chosen;
        })
    where
      moves :
          (w : Worker A) (rest : List A)
          → get_elem? s.pool.threads i ≡ some w
          → w.buf ≡ job ∷ rest
          → of_thread i s.holding ++ queue_at i s.pool.threads
            ≡ of_thread i ((i, job) ∷ s.holding)
              ++ queue_at i (set s.pool.threads i (record w { buf = rest }))
      moves w rest found front =
          rw
            (
              of_thread_own i job s.holding,
              none_held,
              queue_at_found s.pool.threads i w found,
              front,
              queue_at-set_self s.pool.threads i w (record w { buf = rest }) found,
            )
            refl

  pub handles-Ordered :
      (s : Running A) (i : ℕ) (job : A) (before after : List (ℕ × A))
      → Ordered s
      → s.holding ≡ before ++ (i, job) ∷ after
      → Ordered (record s { holding = before ++ after; done = s.done ++ (i, job) ∷ [] })
  handles-Ordered s i job before after o h =
      let (first, last) = alone job (of_thread i before) (of_thread i after) (
        subst (λ l. length l ≤ 1)
          (held i ∙ ap (λ l. of_thread i before ++ l) (of_thread_own i job after)) (o.one i)) in
      record {
        in_order = λ j. elim (ℕ_discrete i j) [
          | yes e ↦
              subst
                (λ j.
                  of_thread j s.placed
                  ≡ of_thread j (s.done ++ (i, job) ∷ [])
                    ++ (of_thread j (before ++ after) ++ queue_at j s.pool.threads))
                e
                (o.in_order i
                  ∙ ap (λ l. of_thread i s.done ++ (l ++ queue_at i s.pool.threads))
                      (holds first last)
                  ∙ sym (append_assoc (of_thread i s.done) (job ∷ []) (queue_at i s.pool.threads))
                  ∙ ap (λ l. (of_thread i s.done ++ job ∷ []) ++ (l ++ queue_at i s.pool.threads))
                      (sym (free first last))
                  ∙ ap (λ l. l ++ (of_thread i (before ++ after) ++ queue_at i s.pool.threads))
                      (sym (of_thread-push_own i job s.done)))
          | no other ↦
              o.in_order j
              ∙ ap (λ l. of_thread j s.done ++ (l ++ queue_at j s.pool.threads)) (kept j other)
              ∙ ap (λ l. l ++ (of_thread j (before ++ after) ++ queue_at j s.pool.threads))
                  (sym (of_thread-push_other i j job s.done other))
        ];
        one = λ j. elim (ℕ_discrete i j) [
          | yes e ↦
              subst (λ j. length (of_thread j (before ++ after)) ≤ 1) e
                (rw (free first last) (omega arith))
          | no other ↦ subst (λ l. length l ≤ 1) (kept j other) (o.one j)
        ];
        none_lost = o.none_lost;
        chosen = o.chosen;
      }
    where
      held : (j : ℕ) → of_thread j s.holding ≡ of_thread j before ++ of_thread j ((i, job) ∷ after)
      held j = ap (of_thread j) h ∙ of_thread-append j before ((i, job) ∷ after)

      holds : of_thread i before ≡ [] → of_thread i after ≡ [] → of_thread i s.holding ≡ job ∷ []
      holds first last = held i ∙ rw (of_thread_own i job after, first, last) refl

      free : of_thread i before ≡ [] → of_thread i after ≡ [] → of_thread i (before ++ after) ≡ []
      free first last = of_thread-append i before after ∙ rw (first, last) refl

      kept : (j : ℕ) → i ≢ j → of_thread j s.holding ≡ of_thread j (before ++ after)
      kept j other =
          held j
          ∙ ap (λ l. of_thread j before ++ l) (of_thread_other j i job after other)
          ∙ sym (of_thread-append j before after)

  pub turns-Ordered :
      (s : Running A) (temp : ℕ) → Ordered s → Ordered (record s { pool = run temp s.pool })
  turns-Ordered s temp o =
      let k = run-Kept temp s.pool in
      record {
        one = o.one;
        none_lost = o.none_lost;
        in_order = λ i.
            o.in_order i
            ∙ ap (λ q. of_thread i s.done ++ (of_thread i s.holding ++ q)) (sym (k.queues i));
        chosen = all_below_more (length s.pool.threads) _ s.placing k.longer o.chosen;
      }
