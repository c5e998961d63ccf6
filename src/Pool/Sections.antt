-- ===== src/Pool/Sections.antt =====
-- What the critical sections of src/core/ThreadPool.cpp find and leave, and the jobs of one thread in a
-- list.
use snframe.Base.{
  ℕ, ◌≤◌, ◌<◌, ◌≡◌, ◌≢◌, refl, sym, ap, ◌∙◌, Bool, true, ◌&&◌, none, some, List, [], ◌∷◌, ◌++◌,
  length, get_elem?, get_elem?-lt, set, ltb, Outcome, Option, ret, fault, ◌⊎◌, inl, inr, arith,
}
use snframe.Pool.{Worker, ThreadPool, next_index, choose, take_front}
use snframe.Pool.Steps.{of_thread}
use snframe.Pool.Queues.{get_elem?_cases}

module _ {ℓ} {A : Type ℓ} where
  pub of_thread-append :
      (i : ℕ) (xs ys : List (ℕ × A)) → of_thread i (xs ++ ys) ≡ of_thread i xs ++ of_thread i ys
  unfolding of_thread
  of_thread-append i [] ys = refl
  of_thread-append i ((j, x) ∷ xs) ys = ground (arith, of_thread-append i xs ys)

  pub of_thread_own :
      (i : ℕ) (x : A) (xs : List (ℕ × A)) → of_thread i ((i, x) ∷ xs) ≡ x ∷ of_thread i xs
  unfolding of_thread
  of_thread_own i x xs = ground arith

  pub of_thread_other :
      (i j : ℕ) (x : A) (xs : List (ℕ × A)) → j ≢ i → of_thread i ((j, x) ∷ xs) ≡ of_thread i xs
  unfolding of_thread
  of_thread_other i j x xs other = ground arith

  list_cases : (xs : List A) → (xs ≡ []) ⊎ ((x : A) × (rest : List A) × (xs ≡ x ∷ rest))
  list_cases [] = inl refl
  list_cases (x ∷ xs) = inr (x, xs, refl)

  -- The threads that a list names are among the first `n`.
  unfoldable pub all_below : ℕ → List (ℕ × A) → Bool
  all_below n [] = true
  all_below n ((i, job) ∷ jobs) = ltb i n && all_below n jobs

  pub all_below_cons :
      (n i : ℕ) (job : A) (jobs : List (ℕ × A))
      → i < n
      → all_below n jobs ≡ true
      → all_below n ((i, job) ∷ jobs) ≡ true
  unfolding all_below
  all_below_cons n i job jobs low h = ground arith

  pub all_below_middle :
      (n : ℕ) (before : List (ℕ × A)) (i : ℕ) (job : A) (after : List (ℕ × A))
      → all_below n (before ++ (i, job) ∷ after) ≡ true
      → (i < n) × (all_below n (before ++ after) ≡ true)
  unfolding all_below
  all_below_middle n [] i job after h = (ground arith, ground arith)
  all_below_middle n ((j, x) ∷ before) i job after h =
      let (low, rest) = all_below_middle n before i job after (ground arith) in (low, ground arith)

  pub all_below_more :
      (n m : ℕ) (jobs : List (ℕ × A)) → n ≤ m → all_below n jobs ≡ true → all_below m jobs ≡ true
  unfolding all_below
  all_below_more n m [] le h = refl
  all_below_more n m ((j, x) ∷ jobs) le h = ground (arith, all_below_more n m jobs le)

  pub choose_inv :
      (p q : ThreadPool A) (i : ℕ)
      → choose p ≡ ret (q, i)
      → (q ≡ record p { index = i }) × (i ≡ next_index p) × (i < length p.threads)
  unfolding choose
  choose_inv p q i h = elim (get_elem?_cases p.threads (next_index p)) [
    | inl e ↦
        let failed : Path (Outcome (ThreadPool A × ℕ)) fault (ret (q, i)) = rw (choose, e) at h in
        absurd cc
    | inr (w, e) ↦
        let chosen : Path (Outcome (ThreadPool A × ℕ))
            (ret (record p { index = next_index p }, next_index p)) (ret (q, i)) =
          rw (choose, e) at h in
        let named : next_index p ≡ i = cc in
        let same : record p { index = next_index p } ≡ q = cc in
        (
          sym same ∙ ap (λ n. record p { index = n }) named,
          sym named,
          omega (arith, get_elem?-lt p.threads (next_index p) w e, named),
        )
  ]

  pub take_front_inv :
      (p q : ThreadPool A) (i : ℕ) (job : A)
      → take_front i p ≡ some (job, q)
      → (w : Worker A) × (rest : List A) × (get_elem? p.threads i ≡ some w)
        × (w.buf ≡ job ∷ rest)
        × (q ≡ record p { threads = set p.threads i (record w { buf = rest }) })
  unfolding take_front
  take_front_inv p q i job h = elim (get_elem?_cases p.threads i) [
    | inl e ↦
        let nothing : Path (Option (A × ThreadPool A)) none (some (job, q)) =
          rw (take_front, e) at h in
        absurd cc
    | inr (w, e) ↦ elim (list_cases w.buf) [
      | inl f ↦
          let nothing : Path (Option (A × ThreadPool A)) none (some (job, q)) =
            rw (take_front, e, f) at h in
          absurd cc
      | inr (first, rest, f) ↦
          let taken : Path (Option (A × ThreadPool A))
              (some (first, record p { threads = set p.threads i (record w { buf = rest }) }))
              (some (job, q)) =
            rw (take_front, e, f) at h in
          let same : first ≡ job = cc in (w, rest, e, f ∙ ap (λ x. x ∷ rest) same, cc)
    ]
  ]
