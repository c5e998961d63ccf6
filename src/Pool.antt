-- ===== src/Pool.antt =====
-- `ThreadPool` of src/core/ThreadPool.cpp: the threads with their queues, which of them are awake, and
-- where a job goes. Each function is one critical section; `handled` stands for the calls of
-- `Recver::getData`, in order.
pub mod Awake
pub mod Tick
pub mod Jobs
pub mod Steps
pub mod Queues
pub mod Sections
pub mod Ordered
pub mod Handled
pub mod Order
pub mod Idle
mod Tests
use snframe.Base.{
  ℕ, zero, suc, ◌+◌, ◌-◌, ◌%◌, ◌^◌, Bool, true, false, ◌&&◌, ◌||◌, Option, none, some, List, [],
  ◌∷◌, ◌++◌, length, get_elem?, set, ltb, leb, ◌==◌, if◌then◌else◌, Outcome, ret, fault, ◌>>=◌,
}

-- `thread_info`.
pub record Worker {ℓ} (A : Type ℓ) : Type ℓ where
  pub work : Bool
  pub buf : List A

pub record ThreadPool {ℓ} (A : Type ℓ) : Type ℓ where
  pub threads : List (Worker A)
  pub working_num : ℕ
  pub max_threads : ℕ
  pub min_threads : ℕ
  pub gradient : ℕ
  pub index : ℕ
  pub single : Bool
  pub handled : List A

-- `<` on the 32 bits of two ints.
abbrev pub less_int : ℕ → ℕ → Bool
less_int a b = ltb ((a + 2 ^ 31) % 2 ^ 32) ((b + 2 ^ 31) % 2 ^ 32)

module _ {ℓ} {A : Type ℓ} where
  -- The constructor and `init`. Where max_threads is the smaller, the code lowers its own argument
  -- and not the member.
  unfoldable pub init : ℕ → ℕ → ℕ → Bool → ThreadPool A
  init max_threads min_threads value single = record {
    threads = [];
    working_num = 0;
    max_threads = max_threads;
    min_threads = min_threads;
    gradient = if less_int max_threads min_threads then 1 else value;
    index = 0;
    single = single;
    handled = [];
  }

  -- One turn of the loop in `create_threads`.
  unfoldable pub create_thread : ThreadPool A → ThreadPool A
  create_thread p =
      let work = ltb (length p.threads) p.min_threads in
      record p {
        threads = p.threads ++ record { work = work; buf = [] } ∷ [];
        working_num = if work then p.working_num + 1 else p.working_num;
      }

  unfoldable pub create_threads : ℕ → ThreadPool A → ThreadPool A
  create_threads zero p = p
  create_threads (suc n) p = create_threads n (create_thread p)

  unfoldable pub start : Bool → ThreadPool A → ThreadPool A
  start automatic p =
      create_threads
        (if automatic
          then (if ltb p.min_threads p.max_threads then p.min_threads else p.max_threads)
          else p.max_threads)
        p

  -- `m_index` after `++m_index >= m_working_num`.
  unfoldable pub next_index : ThreadPool A → ℕ
  next_index p = let i = (p.index + 1) % 2 ^ 32 in if leb p.working_num i then 0 else i

  -- The first critical section of `addJob`: the index moves on, and names the thread.
  unfoldable pub choose : ThreadPool A → Outcome (ThreadPool A × ℕ)
  choose p = elim (get_elem? p.threads (next_index p)) [
    | none ↦ fault
    | some w ↦ ret (record p { index = next_index p }, next_index p)
  ]

  -- The second, on the queue of the thread that was named.
  unfoldable pub place : ℕ → A → ThreadPool A → ThreadPool A
  place i context p = elim (get_elem? p.threads i) [
    | none ↦ p
    | some w ↦ record p { threads = set p.threads i (record w { buf = w.buf ++ context ∷ [] }) }
  ]

  -- `single` with a recver handles the job at once.
  unfoldable pub add_job : A → ThreadPool A → Outcome (ThreadPool A)
  add_job context p =
      if p.single
      then ret (record p { handled = p.handled ++ context ∷ [] })
      else (choose p >>= λ r. ret (place r.1 context r.0))

  -- The critical section of thread `i`: it takes the oldest job of its queue. Where that is empty it
  -- waits.
  unfoldable pub take_front : ℕ → ThreadPool A → Option (A × ThreadPool A)
  take_front i p = elim (get_elem? p.threads i) [
    | none ↦ none
    | some w ↦ elim w.buf [
      | [] ↦ none
      | context ∷ rest ↦
          some (context, record p { threads = set p.threads i (record w { buf = rest }) })
    ]
  ]

  -- One turn of the loop of thread `i`.
  unfoldable pub take_job : ℕ → ThreadPool A → ThreadPool A
  take_job i p = elim (take_front i p) [
    | none ↦ p
    | some (context, q) ↦ record q { handled = q.handled ++ context ∷ [] }
  ]

  -- The bound of the two loops of `run`, where the count of awake threads is `temp_num`.
  unfoldable pub bound : ThreadPool A → ℕ
  bound p =
      if ltb p.gradient (length p.threads - p.working_num)
      then p.working_num + p.gradient
      else length p.threads

  -- One turn of the loop that wakes threads up.
  unfoldable pub wake : ℕ → ThreadPool A → ThreadPool A
  wake i p = elim (get_elem? p.threads i) [
    | none ↦ p
    | some w ↦ if w.work then p else record p {
      threads = set p.threads i (record w { work = true });
      working_num = p.working_num + 1;
    }
  ]

  unfoldable pub wake_from : ℕ → ℕ → ThreadPool A → ThreadPool A
  wake_from i zero p = p
  wake_from i (suc n) p = wake_from (i + 1) n (wake i p)

  unfoldable pub wake_up : ThreadPool A → ThreadPool A
  wake_up p =
      if ltb p.working_num (length p.threads)
      then wake_from p.working_num (bound p - p.working_num) p
      else p

  -- One turn of the loop that puts threads to sleep. The count is unsigned.
  unfoldable pub sleep : ℕ → ThreadPool A → ThreadPool A
  sleep i p = elim (get_elem? p.threads i) [
    | none ↦ p
    | some w ↦ record p {
      threads = set p.threads i (record w { work = false });
      working_num = (p.working_num + 2 ^ 32 - 1) % 2 ^ 32;
    }
  ]

  unfoldable pub sleep_from : ℕ → ℕ → ThreadPool A → ThreadPool A
  sleep_from i zero p = p
  sleep_from i (suc n) p = sleep_from (i + 1) n (sleep i p)

  unfoldable pub slow_down : ThreadPool A → ThreadPool A
  slow_down p = sleep_from p.working_num (bound p - p.working_num) p

  -- The sum of the queue lengths.
  unfoldable pub total : List (Worker A) → ℕ
  total [] = 0
  total (w ∷ ws) = length w.buf + total ws

  -- A turn of `run`, with the sum of the last turn.
  unfoldable pub run : ℕ → ThreadPool A → ThreadPool A
  run temp p =
      let size = total p.threads in
      let missing = p.max_threads - length p.threads in
      if ltb (length p.threads) p.max_threads
      then create_threads (if ltb p.min_threads missing then p.min_threads else missing) p
      else (let trend = ltb 3 ((size + 2 ^ 32 - temp) % 2 ^ 32 % 100) in
          let q = (if (trend && ltb temp size) || ltb 50000 size then wake_up p else p) in
          if trend && (ltb size 10000 && (ltb size temp && ltb q.min_threads q.working_num))
          then slow_down q
          else q)
