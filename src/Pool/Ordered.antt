-- ===== src/Pool/Ordered.antt =====
-- What holds of the queues of src/core/ThreadPool.cpp and of the jobs that are on their way: `Ordered`, and
-- that the callers of `addJob` keep it.
use mathlib.Core.List.{append_assoc, append-nil, Perm, perm_middle, perm_append_singleton}
use mathlib.Core.Path.{subst}
use mathlib.Core.List.Perm
use snframe.Base.{
  ℕ, ◌≤◌, ◌≡◌, ◌≢◌, sym, ap, ◌∙◌, true, List, [], ◌∷◌, ◌++◌, length, length-set, get_elem?-inside,
  set, ret,
}
use native.Mathlib.Decide.{ℕ_discrete}
use snframe.Pool.{Worker, ThreadPool, choose, place}
use snframe.Pool.Steps.{of_thread, queue_at, Running}
use snframe.Pool.Queues.{queue_at_found, queue_at-set_self, queue_at-set_ne}
use snframe.Pool.Sections.{
  of_thread-append, of_thread_own, of_thread_other, all_below, all_below_cons, all_below_middle,
  choose_inv,
}
use snframe.Pool.Jobs.{place_lem}

-- Of what each thread was given, it has handled the first jobs, holds at most one, and has the rest
-- in its queue, all in the order in which they were put there; and every job that was added is on its
-- way to a queue or was put into one, and only once.
pub record Ordered {ℓ} {A : Type ℓ} (s : Running A) : Type ℓ where
  pub in_order :
      (i : ℕ)
      → of_thread i s.placed
        ≡ of_thread i s.done ++ (of_thread i s.holding ++ queue_at i s.pool.threads)
  pub one : (i : ℕ) → length (of_thread i s.holding) ≤ 1
  pub none_lost : Perm s.added (s.placing ++ s.placed)
  pub chosen : all_below (length s.pool.threads) s.placing ≡ true

-- An element goes to the end.
perm_to_end {ℓ} :
    {B : Type ℓ} (xs ys zs : List B) (x : B)
    → Perm ((xs ++ x ∷ ys) ++ zs) ((xs ++ ys) ++ (zs ++ x ∷ []))
perm_to_end xs ys zs x = Perm.trans (Perm.append_right zs (perm_middle xs ys)) (
    Perm.trans (Perm.symm (perm_append_singleton x ((xs ++ ys) ++ zs))) (
      subst (Perm (((xs ++ ys) ++ zs) ++ x ∷ [])) (append_assoc (xs ++ ys) zs (x ∷ []))
        (Perm.refl _)))

module _ {ℓ} {A : Type ℓ} where
  append3 : (xs ys zs ws : List A) → (xs ++ (ys ++ zs)) ++ ws ≡ xs ++ (ys ++ (zs ++ ws))
  append3 xs ys zs ws = append_assoc xs (ys ++ zs) ws ∙ ap (λ l. xs ++ l) (append_assoc ys zs ws)

  -- A list behind which a job of thread `i` is put.
  pub of_thread-push_own :
      (i : ℕ) (job : A) (xs : List (ℕ × A))
      → of_thread i (xs ++ (i, job) ∷ []) ≡ of_thread i xs ++ job ∷ []
  unfolding of_thread
  of_thread-push_own i job xs =
      of_thread-append i xs ((i, job) ∷ []) ∙ ap (λ l. of_thread i xs ++ l) (of_thread_own i job [])

  pub of_thread-push_other :
      (i j : ℕ) (job : A) (xs : List (ℕ × A))
      → i ≢ j
      → of_thread j (xs ++ (i, job) ∷ []) ≡ of_thread j xs
  unfolding of_thread
  of_thread-push_other i j job xs other =
      of_thread-append j xs ((i, job) ∷ [])
      ∙ ap (λ l. of_thread j xs ++ l) (of_thread_other j i job [] other)
      ∙ append-nil (of_thread j xs)

  pub chooses-Ordered :
      (s : Running A) (p : ThreadPool A) (i : ℕ) (job : A)
      → Ordered s
      → choose s.pool ≡ ret (p, i)
      → Ordered
          (record s { pool = p; placing = (i, job) ∷ s.placing; added = s.added ++ (i, job) ∷ [] })
  chooses-Ordered s p i job o h =
      let (same, named, low) = choose_inv s.pool p i h in
      let threads : p.threads ≡ s.pool.threads = ap (λ q. q.threads) same in
      record {
        in_order = λ j.
            o.in_order j
            ∙ ap (λ ts. of_thread j s.done ++ (of_thread j s.holding ++ queue_at j ts))
                (sym threads);
        one = o.one;
        none_lost =
            Perm.trans (perm_append_singleton (i, job) s.added) (Perm.cons (i, job) o.none_lost);
        chosen =
            subst (λ ts. all_below (length ts) ((i, job) ∷ s.placing) ≡ true) (sym threads)
              (all_below_cons (length s.pool.threads) i job s.placing low o.chosen);
      }

  pub places-Ordered :
      (s : Running A) (i : ℕ) (job : A) (before after : List (ℕ × A))
      → Ordered s
      → s.placing ≡ before ++ (i, job) ∷ after
      → Ordered (record s {
        pool = place i job s.pool;
        placing = before ++ after;
        placed = s.placed ++ (i, job) ∷ [];
      })
  places-Ordered s i job before after o h =
      let (low, rest) =
        all_below_middle (length s.pool.threads) before i job after
          (subst (λ l. all_below (length s.pool.threads) l ≡ true) h o.chosen) in
      let (w, found) = get_elem?-inside s.pool.threads i low in
      subst
        (λ q.
          Ordered
            (record s { pool = q; placing = before ++ after; placed = s.placed ++ (i, job) ∷ [] }))
        (sym (place_lem s.pool i job w found))
        (record {
          in_order = λ j. elim (ℕ_discrete i j) [
            | yes same ↦
                subst
                  (λ j.
                    of_thread j (s.placed ++ (i, job) ∷ [])
                    ≡ of_thread j s.done
                      ++ (of_thread j s.holding ++ queue_at j (set s.pool.threads i (grown w))))
                  same
                  (of_thread-push_own i job s.placed
                    ∙ ap (λ l. l ++ job ∷ []) (o.in_order i)
                    ∙ append3 (of_thread i s.done) (of_thread i s.holding) _ (job ∷ [])
                    ∙ ap (λ q. of_thread i s.done ++ (of_thread i s.holding ++ q))
                        (ap (λ q. q ++ job ∷ []) (queue_at_found s.pool.threads i w found)
                          ∙ sym (queue_at-set_self s.pool.threads i w (grown w) found)))
            | no other ↦
                of_thread-push_other i j job s.placed other
                ∙ o.in_order j
                ∙ ap (λ q. of_thread j s.done ++ (of_thread j s.holding ++ q))
                    (sym (queue_at-set_ne s.pool.threads i j (grown w) other))
          ];
          one = o.one;
          none_lost = Perm.trans o.none_lost (
              subst (λ l. Perm (l ++ s.placed) ((before ++ after) ++ (s.placed ++ (i, job) ∷ [])))
                (sym h) (perm_to_end before after s.placed (i, job)));
          chosen =
              subst (λ n. all_below n (before ++ after) ≡ true)
                (sym (length-set s.pool.threads i (grown w))) rest;
        })
    where
      grown : Worker A → Worker A
      grown w = record w { buf = w.buf ++ job ∷ [] }
