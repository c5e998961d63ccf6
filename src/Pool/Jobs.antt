-- ===== src/Pool/Jobs.antt =====
-- Where `addJob` of src/core/ThreadPool.cpp puts a job, and the order in which a thread handles its
-- own.
use snframe.Base.{
  ℕ, zero, suc, ◌≤◌, ◌<◌, ◌≡◌, refl, sym, ap, ◌∙◌, inl, inr, true, false, some, List, [], ◌∷◌, ◌++◌,
  length, get_elem?, get_elem?-set_self, get_elem?-set_ne, get_elem?-inside, get_elem?-lt, set,
  length-set, ltb, lt→ltb, Outcome, ret, ◌>>=◌, if◌then◌else◌, arith,
}
use mathlib.Core.List.{append-nil, append_assoc}
use native.Mathlib.Decide.{ℕ_discrete}
use snframe.Pool.{Worker, ThreadPool, next_index, choose, place, add_job, take_front, take_job}
use snframe.Pool.Awake.{IsPool}
use snframe.Pool.Queues.{get_elem?_cases}

module _ {ℓ} {A : Type ℓ} where
  pub next_index-below : (p : ThreadPool A) → 1 ≤ p.working_num → next_index p < p.working_num
  unfolding next_index
  next_index-below p h = ground arith

  choose_lem :
      (p : ThreadPool A) (w : Worker A)
      → get_elem? p.threads (next_index p) ≡ some w
      → choose p ≡ ret (record p { index = next_index p }, next_index p)
  unfolding choose
  choose_lem p w f = rw (choose, f) refl

  pub place_lem :
      (p : ThreadPool A) (i : ℕ) (job : A) (w : Worker A)
      → get_elem? p.threads i ≡ some w
      → place i job p
        ≡ record p { threads = set p.threads i (record w { buf = w.buf ++ job ∷ [] }) }
  unfolding place
  place_lem p i job w f = rw (place, f) refl

  pub place-working_num :
      (p : ThreadPool A) (i : ℕ) (job : A) → (place i job p).working_num ≡ p.working_num
  unfolding place
  place-working_num p i job = elim (get_elem?_cases p.threads i) [
    | inl e ↦ rw (place, e) refl
    | inr (w, e) ↦ rw (place, e) refl
  ]

  add_job-runs :
      (p : ThreadPool A) (job : A) (w : Worker A)
      → p.single ≡ false
      → get_elem? p.threads (next_index p) ≡ some w
      → add_job job p
        ≡ ret (record p {
          index = next_index p;
          threads = set p.threads (next_index p) (record w { buf = w.buf ++ job ∷ [] });
        })
  unfolding add_job
  add_job-runs p job w e f =
      if_false _ _ e
      ∙ ap (λ r. r >>= λ c. ret (place c.1 job c.0)) (choose_lem p w f)
      ∙ ap ret (place_lem (record p { index = next_index p }) (next_index p) job w f)
    where
      if_false : (x y : Outcome (ThreadPool A)) → p.single ≡ false → (if p.single then x else y) ≡ y
      if_false x y h = rw h refl

  -- Where a thread is awake and the pool is not single, `add_job` puts the job behind the others of one
  -- thread, the one at the new index, which is awake; it leaves all other threads, what has been
  -- handled, and which threads are awake.
  pub add_job-awake :
      (p : ThreadPool A) (job : A)
      → IsPool p
      → p.single ≡ false
      → 1 ≤ p.working_num
      → (q : ThreadPool A) × (w : Worker A) × (add_job job p ≡ ret q)
        × (get_elem? p.threads q.index ≡ some w)
        × (w.work ≡ true)
        × (q.threads ≡ set p.threads q.index (record w { buf = w.buf ++ job ∷ [] }))
        × (q.handled ≡ p.handled)
        × IsPool q
  add_job-awake p job h several some_awake =
      let below = next_index-below p some_awake in
      let (w, found) = get_elem?-inside p.threads (next_index p) (omega (arith, h.counted)) in
      (
        record p {
          index = next_index p;
          threads = set p.threads (next_index p) (record w { buf = w.buf ++ job ∷ [] });
        },
        w,
        add_job-runs p job w several found,
        found,
        h.awake (next_index p) w found ∙ lt→ltb (next_index p) p.working_num below,
        refl,
        refl,
        record {
          counted = omega (
            arith,
            h.counted,
            length-set p.threads (next_index p) (record w { buf = w.buf ++ job ∷ [] }),
          );
          awake = λ j v e. place w found j v e;
        },
      )
    where
      place :
          (w : Worker A)
          → get_elem? p.threads (next_index p) ≡ some w
          → (j : ℕ) (v : Worker A)
          → get_elem? (set p.threads (next_index p) (record w { buf = w.buf ++ job ∷ [] })) j
            ≡ some v
          → v.work ≡ ltb j p.working_num
      place w found j v e = elim (ℕ_discrete (next_index p) j) [
        | yes here ↦
            let inside : next_index p < length p.threads =
              omega (arith, h.counted, next_index-below p some_awake) in
            let new : some v ≡ some (record w { buf = w.buf ++ job ∷ [] }) =
              sym (rw (← here) at e)
              ∙ get_elem?-set_self p.threads (next_index p) (record w { buf = w.buf ++ job ∷ [] })
                  inside in
            work_of new ∙ rw here at (h.awake (next_index p) w found)
        | no other ↦ h.awake j v (
            sym (
              get_elem?-set_ne p.threads (next_index p) j (record w { buf = w.buf ++ job ∷ [] })
                other)
            ∙ e)
      ]
        where
          work_of : {u : Worker A} → some v ≡ some u → v.work ≡ u.work
          work_of q = cc

  -- Thread `i`, `n` times in turn.
  abbrev pub take_jobs : ℕ → ℕ → ThreadPool A → ThreadPool A
  take_jobs i zero p = p
  take_jobs i (suc n) p = take_jobs i n (take_job i p)

  take_job-step :
      (p : ThreadPool A) (i : ℕ) (w : Worker A) (job : A) (rest : List A)
      → get_elem? p.threads i ≡ some w
      → w.buf ≡ job ∷ rest
      → take_job i p ≡ record p {
        threads = set p.threads i (record w { buf = rest });
        handled = p.handled ++ job ∷ [];
      }
  unfolding take_job take_front
  take_job-step p i w job rest e f = rw (take_job, take_front, e, f) refl

  -- A thread that runs for as many turns as its queue has jobs handles them all, in the order in which
  -- they were added, behind what was handled before, and its queue is then empty.
  pub take_jobs-fifo :
      (jobs : List A) (p : ThreadPool A) (i : ℕ) (w : Worker A)
      → get_elem? p.threads i ≡ some w
      → w.buf ≡ jobs
      → ((take_jobs i (length jobs) p).handled ≡ p.handled ++ jobs)
        × (get_elem? (take_jobs i (length jobs) p).threads i ≡ some (record w { buf = [] }))
  take_jobs-fifo [] p i w e f = (sym (append-nil p.handled), rw f at e)
  take_jobs-fifo (job ∷ jobs) p i w e f =
      let next = record p {
        threads = set p.threads i (record w { buf = jobs });
        handled = p.handled ++ job ∷ [];
      } in
      let (done, empty) =
        take_jobs-fifo jobs next i (record w { buf = jobs })
          (get_elem?-set_self p.threads i (record w { buf = jobs }) (get_elem?-lt p.threads i w e))
          refl in
      let step = ap (take_jobs i (length jobs)) (take_job-step p i w job jobs e f) in
      (
        ap (λ q. q.handled) step ∙ done ∙ append_assoc p.handled (job ∷ []) jobs,
        ap (λ q. get_elem? q.threads i) step ∙ empty,
      )
