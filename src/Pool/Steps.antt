-- ===== src/Pool/Steps.antt =====
-- The threads of src/core/ThreadPool.cpp and the callers of `addJob`, in any interleaving of their
-- critical sections.
use snframe.Base.{
  ℕ, ◌≡◌, Bool, true, none, some, List, [], ◌∷◌, ◌++◌, get_elem?, ◌==◌, if◌then◌else◌, ret,
}
use snframe.Pool.{Worker, ThreadPool, choose, place, take_front, run}

-- The jobs that a list gives to thread `i`, in order.
unfoldable pub of_thread {ℓ} : {A : Type ℓ} → ℕ → List (ℕ × A) → List A
of_thread i [] = []
of_thread i ((j, job) ∷ jobs) = let rest = of_thread i jobs in if j == i then job ∷ rest else rest

unfoldable pub queue_at {ℓ} : {A : Type ℓ} → ℕ → List (Worker A) → List A
queue_at i threads = elim (get_elem? threads i) [ none ↦ [] | some w ↦ w.buf ]

-- The pool; what callers of `addJob` have a thread for and have not put into its queue yet; what
-- threads have taken and not given to `Recver::getData` yet. The last three are what has happened:
-- the jobs that were added, put into a queue, and handled, each with the thread and in order.
pub record Running {ℓ} (A : Type ℓ) : Type ℓ where
  pub pool : ThreadPool A
  pub placing : List (ℕ × A)
  pub holding : List (ℕ × A)
  pub added : List (ℕ × A)
  pub placed : List (ℕ × A)
  pub done : List (ℕ × A)

-- What the callers and the threads have in hand is in any order. A thread takes a job only where it
-- holds none; whether it is awake is not asked, so that there are more steps here than the code has.
-- Where the pool is `supervised`, the thread of `run()` turns too.
pub data Step {ℓ} {A : Type ℓ} (supervised : Bool) : Running A → Running A → Type ℓ where
  chooses :
      (s : Running A) (p : ThreadPool A) (i : ℕ) (job : A)
      → choose s.pool ≡ ret (p, i)
      → Step supervised s
          (record s { pool = p; placing = (i, job) ∷ s.placing; added = s.added ++ (i, job) ∷ [] })
  places :
      (s : Running A) (i : ℕ) (job : A) (before after : List (ℕ × A))
      → s.placing ≡ before ++ (i, job) ∷ after
      → Step supervised s (record s {
        pool = place i job s.pool;
        placing = before ++ after;
        placed = s.placed ++ (i, job) ∷ [];
      })
  takes :
      (s : Running A) (p : ThreadPool A) (i : ℕ) (job : A)
      → of_thread i s.holding ≡ []
      → take_front i s.pool ≡ some (job, p)
      → Step supervised s (record s { pool = p; holding = (i, job) ∷ s.holding })
  handles :
      (s : Running A) (i : ℕ) (job : A) (before after : List (ℕ × A))
      → s.holding ≡ before ++ (i, job) ∷ after
      → Step supervised s (record s { holding = before ++ after; done = s.done ++ (i, job) ∷ [] })
  turns :
      (s : Running A) (temp : ℕ)
      → supervised ≡ true
      → Step supervised s (record s { pool = run temp s.pool })

pub data Reach {ℓ} {A : Type ℓ} (supervised : Bool) (s : Running A) : Running A → Type ℓ where
  here : Reach supervised s s
  next : {t u : Running A} → Reach supervised s t → Step supervised t u → Reach supervised s u

-- A pool that has just been started.
unfoldable pub running {ℓ} : {A : Type ℓ} → ThreadPool A → Running A
running p = record { pool = p; placing = []; holding = []; added = []; placed = []; done = [] }
