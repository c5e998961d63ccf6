-- ===== src/Timer/Ticks.antt =====
-- Which callbacks a tick runs: src/core/Timer.cpp and src/core/LibEvent.cpp.
use snframe.Base.{
  ℕ, zero, suc, ◌+◌, ◌≤◌, ◌<◌, ◌≡◌, ◌≢◌, refl, ap, ◌∙◌, false, length, List, [], ◌∷◌, ◌++◌, none,
  some, ◌==◌, ==_iff, if◌then◌else◌, arith,
}
use snframe.Timer.{
  Timers, LoopTimers, add_timer, server_cron, set_timer, find_timer, loop_add_timer, do_timeout,
}

cron-append :
    {C W : Type 0} (run : C → W → W) (xs ys : Timers C) (w : W)
    → server_cron run (xs ++ ys) w ≡ server_cron run ys (server_cron run xs w)
unfolding server_cron
cron-append run [] ys w = refl
cron-append run ((cb, sec) ∷ xs) ys w = cron-append run xs ys (run cb w)

cron-push :
    {C W : Type 0} (run : C → W → W) (cb : C) (sec : ℕ) (timers : Timers C) (w : W)
    → server_cron run (add_timer cb sec timers) w ≡ run cb (server_cron run timers w)
unfolding add_timer server_cron
cron-push run cb sec timers w = cron-append run timers _ w

abbrev pub times : {W : Type 0} → ℕ → (W → W) → W → W
times zero f w = w
times (suc n) f w = f (times n f w)

-- A callback that is added once for each of some periods.
abbrev pub add_each : {C : Type 0} → C → List ℕ → Timers C → Timers C
add_each cb [] timers = timers
add_each cb (sec ∷ secs) timers = add_timer cb sec (add_each cb secs timers)

-- A timer runs at every tick, behind those that were there, whatever its period is; and one that is
-- added several times runs as often at every tick.
pub cron-add_each :
    {C W : Type 0} (run : C → W → W) (cb : C) (secs : List ℕ) (timers : Timers C) (w : W)
    → server_cron run (add_each cb secs timers) w
      ≡ times (length secs) (run cb) (server_cron run timers w)
cron-add_each run cb [] timers w = refl
cron-add_each run cb (sec ∷ secs) timers w =
    cron-push run cb sec (add_each cb secs timers) w
    ∙ ap (run cb) (cron-add_each run cb secs timers w)

-- The ids of the timers are 1 to `m_id`.
pub record IsLoop {C : Type 0} (t : LoopTimers C) : Type 0 where
  pub unused : (id : ℕ) → t.m_id < id → find_timer id t.m_timer ≡ none

find_timer-set_timer :
    {C : Type 0} (m : List (ℕ × C)) (id other : ℕ) (cb : C)
    → find_timer other (set_timer id cb m) ≡ (if id == other then some cb else find_timer other m)
unfolding find_timer set_timer
find_timer-set_timer [] id other cb = refl
find_timer-set_timer ((i, old) ∷ m) id other cb = ground (arith, find_timer-set_timer m id other cb)

-- A timer that is added has an id of its own: its timeout runs its callback, and the
-- timeouts of the others run what they ran.
pub timeout-add :
    {C W : Type 0} (run : C → W → W) (cb : C) (sec id : ℕ) (t : LoopTimers C) (w : W)
    → IsLoop t
    → id ≤ t.m_id
    → (do_timeout run (t.m_id + 1) (loop_add_timer cb sec t) w ≡ run cb w)
      × (do_timeout run id (loop_add_timer cb sec t) w ≡ do_timeout run id t w)
      × IsLoop (loop_add_timer cb sec t)
unfolding loop_add_timer do_timeout
timeout-add run cb sec id t w v h = (
  rw
      (
        find_timer-set_timer t.m_timer (t.m_id + 1) (t.m_id + 1) cb,
        (==_iff (t.m_id + 1) (t.m_id + 1)).1 refl,
      )
      refl,
  rw (find_timer-set_timer t.m_timer (t.m_id + 1) id cb, different (t.m_id + 1) id (omega arith))
      refl,
  record {
    unused = λ i k.
        rw
          (find_timer-set_timer t.m_timer (t.m_id + 1) i cb, different (t.m_id + 1) i (omega arith))
          (v.unused i (omega arith));
  },
)
  where
    different : (a b : ℕ) → a ≢ b → (a == b) ≡ false
    different a b k = ground arith
