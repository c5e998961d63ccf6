-- ===== src/Pool/Awake.antt =====
-- Which threads of src/core/ThreadPool.cpp are awake.
use snframe.Base.{
  ℕ, zero, suc, ◌+◌, ◌≤◌, ◌<◌, ◌≡◌, refl, sym, ap, ◌∙◌, min, Bool, inl, inr, some, [], ◌∷◌, ◌++◌,
  length, length-append, get_elem?, get_elem?-push, get_elem?-lt, ltb, if◌then◌else◌, arith,
}
use snframe.Pool.{Worker, ThreadPool, init, create_thread, create_threads, start}

-- The threads that are awake are the first `working_num`.
pub record IsPool {ℓ} {A : Type ℓ} (p : ThreadPool A) : Type ℓ where
  pub counted : p.working_num ≤ length p.threads
  pub awake : (i : ℕ) (w : Worker A) → get_elem? p.threads i ≡ some w → w.work ≡ ltb i p.working_num

-- The threads that `start` creates: `max_threads`, or `min_threads` of them where it is automatic and
-- `min_threads` is the smaller.
abbrev pub started_size : Bool → ℕ → ℕ → ℕ
started_size automatic most least =
    if automatic then (if ltb least most then least else most) else most

module _ {ℓ} {A : Type ℓ} where
  -- While threads are created, the first `min_threads` are awake.
  record Growing (p : ThreadPool A) : Type ℓ where
    pool : IsPool p
    least : p.working_num ≡ min (length p.threads) p.min_threads

  create_thread-Growing :
      (p : ThreadPool A)
      → Growing p
      → Growing (create_thread p)
        × (length (create_thread p).threads ≡ length p.threads + 1)
        × ((create_thread p).min_threads ≡ p.min_threads)
  unfolding create_thread
  create_thread-Growing p g = (
    record {
      pool = record {
        counted = ground (arith, g.pool.counted, grown);
        awake = λ i w e. elim (get_elem?-push p.threads _ i w e) [
          | inl old ↦ g.pool.awake i w old ∙ place i (get_elem?-lt p.threads i w old)
          | inr (last, new) ↦ ap (λ v. v.work) (sym new) ∙ last_place i last
        ];
      };
      least = rw grown next_least;
    },
    grown,
    refl,
  )
    where
      place :
          (i : ℕ)
          → i < length p.threads
          → ltb i p.working_num
            ≡ ltb i
                (if ltb (length p.threads) p.min_threads then p.working_num + 1 else p.working_num)
      place i h = ground (arith, g.least)

      last_place :
          (i : ℕ)
          → i ≡ length p.threads
          → ltb (length p.threads) p.min_threads
            ≡ ltb i
                (if ltb (length p.threads) p.min_threads then p.working_num + 1 else p.working_num)
      last_place i e = ground (arith, g.least)

      next_least :
          (if ltb (length p.threads) p.min_threads then p.working_num + 1 else p.working_num)
          ≡ min (length p.threads + 1) p.min_threads
      next_least = ground (arith, g.least)

      grown :
          length
            (p.threads ++ record { work = ltb (length p.threads) p.min_threads; buf = [] } ∷ [])
          ≡ length p.threads + 1
      grown = length-append p.threads _

  create_threads-Growing :
      (n : ℕ) (p : ThreadPool A)
      → Growing p
      → Growing (create_threads n p)
        × (length (create_threads n p).threads ≡ length p.threads + n)
        × ((create_threads n p).min_threads ≡ p.min_threads)
  unfolding create_threads
  create_threads-Growing zero p g = (g, omega arith, refl)
  create_threads-Growing (suc n) p g =
      let (h, e, f) = create_thread-Growing p g in
      let (k, size, least) = create_threads-Growing n (create_thread p) h in
      (k, omega (arith, e), least ∙ f)

  -- A pool behind `init` and `start`: it has so many threads; the first `min_threads` of them, or all
  -- if there are fewer, are awake, and they are counted.
  pub start-IsPool :
      (automatic single : Bool) (most least value : ℕ)
      → let p : ThreadPool A = start automatic (init most least value single) in
        IsPool p
        × (length p.threads ≡ started_size automatic most least)
        × (p.working_num ≡ min (started_size automatic most least) least)
  unfolding start init
  start-IsPool automatic single most least value =
      let (g, e, f) =
        create_threads-Growing (started_size automatic most least) (init most least value single)
          blank in
      (g.pool, omega (arith, e), omega (arith, e, f, g.least))
    where
      blank : Growing (init most least value single)
      blank = record {
        pool = record { counted = omega arith; awake = λ i w e. cc };
        least = omega arith;
      }
