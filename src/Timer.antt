-- ===== src/Timer.antt =====
-- Timers: src/core/Timer.cpp, and addTimer and do_timeout of src/core/LibEvent.cpp. A callback is a
-- value of a type of the model; what it does is a function on the rest of the state. The locks are
-- held around each function.
pub mod Ticks
use snframe.Base.{ℕ, zero, suc, ◌+◌, List, [], ◌∷◌, ◌++◌, Option, none, some, ◌==◌, if◌then◌else◌}

-- `m_timers`: a callback and the seconds that it was added with.
abbrev pub Timers : Type 0 → Type 0
Timers C = List (C × ℕ)

unfoldable pub add_timer : {C : Type 0} → C → ℕ → Timers C → Timers C
add_timer cb sec timers = timers ++ (cb, sec) ∷ []

-- `serverCron`, but for the sleep at its first call.
unfoldable pub server_cron : {C W : Type 0} → (C → W → W) → Timers C → W → W
server_cron run [] w = w
server_cron run ((cb, sec) ∷ timers) w = server_cron run timers (run cb w)

-- `m_id` and `m_timer` of the event loop, and the timeouts that it was asked for: the id that each
-- hands to `do_timeout`, with its period.
pub record LoopTimers (C : Type 0) : Type 0 where
  pub m_id : ℕ
  pub m_timer : List (ℕ × C)
  pub timeouts : List (ℕ × ℕ)

unfoldable pub set_timer {ℓ} : {C : Type ℓ} → ℕ → C → List (ℕ × C) → List (ℕ × C)
set_timer id cb [] = (id, cb) ∷ []
set_timer id cb ((i, old) ∷ m) = if i == id then (i, cb) ∷ m else (i, old) ∷ set_timer id cb m

unfoldable pub find_timer {ℓ} : {C : Type ℓ} → ℕ → List (ℕ × C) → Option C
find_timer id [] = none
find_timer id ((i, cb) ∷ m) = if i == id then some cb else find_timer id m

unfoldable pub loop_add_timer : {C : Type 0} → C → ℕ → LoopTimers C → LoopTimers C
loop_add_timer cb sec t = record {
  m_id = t.m_id + 1;
  m_timer = set_timer (t.m_id + 1) cb t.m_timer;
  timeouts = t.timeouts ++ (t.m_id + 1, sec) ∷ [];
}

abbrev pub run_found : {C W : Type 0} → (C → W → W) → Option C → W → W
run_found run none w = w
run_found run (some cb) w = run cb w

unfoldable pub do_timeout : {C W : Type 0} → (C → W → W) → ℕ → LoopTimers C → W → W
do_timeout run id t w = run_found run (find_timer id t.m_timer) w
