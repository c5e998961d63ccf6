-- ===== src/Pool/Tests.antt =====
-- Runs of src/core/ThreadPool.cpp on a small pool.
use snframe.Base.{
  ℕ, zero, suc, ◌≡◌, refl, true, false, some, [], ◌∷◌, ◌++◌, length, get_elem?, set, ltb, ret,
  arith,
}
use snframe.Pool.{
  Worker, ThreadPool, init, start, add_job, slow_down, choose, place, take_front, next_index, run,
  total,
}
use snframe.Pool.Steps.{
  of_thread, queue_at, Running, Reach, here, next, chooses, places, takes, handles, turns, running,
}
use snframe.Pool.Ordered.{Ordered}
use snframe.Pool.Order.{Reach-Ordered}
use snframe.Pool.Awake.{IsPool, start-IsPool}
use snframe.Pool.Tick.{slow_down-sleeps}
use snframe.Pool.Jobs.{add_job-awake}

-- Three threads, two of them awake.
abbrev awake : Worker ℕ
awake = record { work = true; buf = 7 ∷ 8 ∷ [] }

abbrev asleep : Worker ℕ
asleep = record { work = false; buf = [] }

abbrev three : ThreadPool ℕ
three = record {
  threads = awake ∷ awake ∷ asleep ∷ [];
  working_num = 2;
  max_threads = 3;
  min_threads = 1;
  gradient = 4;
  index = 0;
  single = false;
  handled = [];
}

three-IsPool : IsPool three
three-IsPool = record { counted = omega arith; awake = place }
  where
    place :
        (i : ℕ) (w : Worker ℕ)
        → get_elem? (awake ∷ awake ∷ asleep ∷ []) i ≡ some w
        → w.work ≡ ltb i 2
    place zero w e = cc
    place (suc zero) w e = cc
    place (suc (suc zero)) w e = cc
    place (suc (suc (suc i))) w e = cc

start-IsPool_example :
    let p : ThreadPool ℕ = start true (init 8 5 4 false) in
    IsPool p × (length p.threads ≡ 5) × (p.working_num ≡ 5)
start-IsPool_example = start-IsPool true false 8 5 4

slow_down-sleeps_example :
    ((slow_down three).threads ≡ three.threads) × ((slow_down three).working_num ≡ 1)
slow_down-sleeps_example = slow_down-sleeps three three-IsPool (omega arith)

add_job-awake_example :
    (q : ThreadPool ℕ) × (w : Worker ℕ) × (add_job 9 three ≡ ret q)
    × (get_elem? three.threads q.index ≡ some w)
    × (w.work ≡ true)
    × (q.threads ≡ set three.threads q.index (record w { buf = w.buf ++ 9 ∷ [] }))
    × (q.handled ≡ [])
    × IsPool q
add_job-awake_example = add_job-awake three 9 three-IsPool refl (omega arith)

-- Two threads without jobs. Job 5 is given to thread 1, which takes it; the thread of `run()` turns;
-- job 6 is given to thread 0 and waits; job 5 is handled.
abbrev ready : Worker ℕ
ready = record { work = true; buf = [] }

abbrev pair : ThreadPool ℕ
pair = record {
  threads = ready ∷ ready ∷ [];
  working_num = 2;
  max_threads = 2;
  min_threads = 2;
  gradient = 4;
  index = 0;
  single = false;
  handled = [];
}

pair-empty : (i : ℕ) → queue_at i pair.threads ≡ []
unfolding queue_at
pair-empty zero = refl
pair-empty (suc zero) = refl
pair-empty (suc (suc i)) = refl

abbrev chosen_5 : Running ℕ
chosen_5 = record {
  pool = record pair { index = 1 };
  placing = (1, 5) ∷ [];
  holding = [];
  added = (1, 5) ∷ [];
  placed = [];
  done = [];
}

abbrev placed_5 : Running ℕ
placed_5 = record chosen_5 { pool = place 1 5 chosen_5.pool; placing = []; placed = (1, 5) ∷ [] }

abbrev taken_5 : Running ℕ
taken_5 = record placed_5 { pool = record pair { index = 1 }; holding = (1, 5) ∷ [] }

abbrev turned : Running ℕ
turned = record taken_5 { pool = run 0 taken_5.pool }

abbrev chosen_6 : Running ℕ
chosen_6 = record turned { pool = pair; placing = (0, 6) ∷ []; added = (1, 5) ∷ (0, 6) ∷ [] }

abbrev placed_6 : Running ℕ
placed_6 = record chosen_6 { pool = place 0 6 pair; placing = []; placed = (1, 5) ∷ (0, 6) ∷ [] }

abbrev handled_5 : Running ℕ
handled_5 = record placed_6 { holding = []; done = (1, 5) ∷ [] }

pair_run : Reach true (running pair) handled_5
unfolding running of_thread choose place take_front next_index run total
pair_run =
    let first =
      next (next here (chooses (running pair) (record pair { index = 1 }) 1 5 refl))
        (places chosen_5 1 5 [] [] refl) in
    let second =
      next (next first (takes placed_5 (record pair { index = 1 }) 1 5 refl refl))
        (turns taken_5 0 refl) in
    let third =
      next (next second (chooses turned pair 0 6 refl)) (places chosen_6 0 6 [] [] refl) in
    next third (handles placed_6 1 5 [] [] refl)

Reach-Ordered_example : Ordered handled_5
Reach-Ordered_example = Reach-Ordered true pair pair-empty handled_5 pair_run
