-- ===== src/Nodes/Reconnect.antt =====
-- How long src/core/ServiceNode.cpp keeps a broken node, and how often it sends heartbeats.
use snframe.Base.{
  ℕ, zero, suc, ◌+◌, ◌≤◌, ◌<◌, ◌≡◌, refl, ap, ◌∙◌, Bool, Bool-cases, inl, inr, true, Option, none,
  some, List, [], ◌∷◌, ◌++◌, leb, lt→ltb, le→ltb, le→leb, lt→leb, if◌then◌else◌, arith,
}
use mathlib.Core.List.{append-nil}
use native.Mathlib.Decide.{dec_lt}
use snframe.Nodes.{
  Node, node_error, is_broken, set_state, need_reconnect, try_connect, check_node, reconnected,
  beats, heart_beat,
}

-- Turns on one node while every connect is refused; a node that is given up stays so.
abbrev pub refused_turns : ℕ → Bool → Option Node → Option Node
refused_turns zero router m = m
refused_turns (suc k) router none = none
refused_turns (suc k) router (some n) = refused_turns k router ((check_node router n []).0)

given_up : (k : ℕ) (router : Bool) → refused_turns k router none ≡ none
given_up zero router = refl
given_up (suc k) router = refl

turn-kept :
    (router : Bool) (n : Node)
    → n.persist ≡ true
    → is_broken n.state ≡ true
    → n.num < 4
    → (check_node router n []).0 ≡ some (record n { num = n.num + 1 })
unfolding check_node need_reconnect try_connect
turn-kept router n p b h = simp (p, b, lt→ltb n.num 4 h)

turn-gone :
    (router : Bool) (n : Node)
    → is_broken n.state ≡ true
    → 4 ≤ n.num
    → (check_node router n []).0 ≡ none
unfolding check_node need_reconnect try_connect
turn-gone router n b h = elim (Bool-cases n.persist) [
  | inl p ↦ simp (p, b, le→ltb n.num 4 h)
  | inr p ↦ simp (p, b)
]

-- A broken node that is to be kept connected, while every connect is refused: it is kept, and the
-- attempts are counted, as long as there are no more than four; the fifth turn gives it up.
pub refused-limit :
    (k : ℕ) (router : Bool) (n : Node)
    → n.persist ≡ true
    → is_broken n.state ≡ true
    → n.num ≤ 4
    → refused_turns k router (some n)
      ≡ (if leb (n.num + k) 4 then some (record n { num = n.num + k }) else none)
refused-limit zero router n p b h = rw (none_more n.num, le→leb n.num 4 h) refl
  where
    none_more : (v : ℕ) → v + 0 ≡ v
    none_more v = omega arith
refused-limit (suc k) router n p b h = elim (dec_lt n.num 4) [
  | yes more ↦
      ap (refused_turns k router) (turn-kept router n p b more)
      ∙ refused-limit k router (record n { num = n.num + 1 }) p b (omega arith)
      ∙ rw (one_more n.num) refl
  | no last ↦
      ap (refused_turns k router) (turn-gone router n b (omega arith))
      ∙ given_up k router
      ∙ rw (lt→leb (n.num + suc k) 4 (omega arith)) refl
]
  where
    one_more : (v : ℕ) → v + 1 + k ≡ v + suc k
    one_more v = omega arith

-- Turns on one node where connect succeeds with these descriptors, and each new connection fails again
-- before the node is authenticated.
abbrev pub failing_turns : List ℕ → Bool → Option Node → Option Node
failing_turns [] router m = m
failing_turns (fd ∷ fds) router none = none
failing_turns (fd ∷ fds) router (some n) = elim ((check_node router n (some fd ∷ [])).0) [
  | none ↦ none
  | some m ↦ failing_turns fds router (some (set_state node_error m))
]

turn-reconnects :
    (router : Bool) (n : Node) (fd : ℕ)
    → n.persist ≡ true
    → is_broken n.state ≡ true
    → n.num < 4
    → (check_node router n (some fd ∷ [])).0 ≡ some (reconnected (record n { num = n.num + 1 }) fd)
unfolding check_node need_reconnect try_connect
turn-reconnects router n fd p b h = simp (p, b, lt→ltb n.num 4 h)

-- A broken node that is persistent and has fewer than 4 attempts counted, and whose connect succeeds
-- in every turn: where it fails each time before its authentication is answered, it is still there
-- after any number of such turns, with no attempt counted, since the step from NODE_AUTH to NODE_ERROR
-- resets the count.
pub failing-unlimited :
    (fds : List ℕ) (fd : ℕ) (router : Bool) (n : Node)
    → n.persist ≡ true
    → is_broken n.state ≡ true
    → n.num < 4
    → (m : Node) × (failing_turns (fd ∷ fds) router (some n) ≡ some m) × (m.id ≡ n.id) × (m.num ≡ 0)
unfolding set_state
failing-unlimited [] fd router n p b h = (
  set_state node_error (reconnected (record n { num = n.num + 1 }) fd),
  ap (failed []) (turn-reconnects router n fd p b h),
  refl,
  refl,
)
  where
    failed : List ℕ → Option Node → Option Node
    failed rest none = none
    failed rest (some m) = failing_turns rest router (some (set_state node_error m))
failing-unlimited (gd ∷ fds) fd router n p b h =
    let next = set_state node_error (reconnected (record n { num = n.num + 1 }) fd) in
    let (m, runs, id, num) = failing-unlimited fds gd router next p refl (omega arith) in
    (m, ap (failed (gd ∷ fds)) (turn-reconnects router n fd p b h) ∙ runs, id, num)
  where
    failed : List ℕ → Option Node → Option Node
    failed rest none = none
    failed rest (some m) = failing_turns rest router (some (set_state node_error m))

-- The heartbeats of calls on these lists of nodes, one after another.
abbrev pub run_beats : ℕ → List (List Node) → List ℕ
run_beats loop [] = []
run_beats loop (ns ∷ calls) = let (next, fds) = heart_beat loop ns in fds ++ run_beats next calls

silent : (calls : List (List Node)) → run_beats 1 calls ≡ []
unfolding heart_beat
silent [] = refl
silent (ns ∷ calls) = silent calls

-- From the start of the process, only the first call of `heartBeat`, of whatever service, sends
-- heartbeats; no later call sends any.
pub beats-once : (ns : List Node) (calls : List (List Node)) → run_beats 0 (ns ∷ calls) ≡ beats ns
unfolding heart_beat
beats-once ns calls = rw (silent calls) (append-nil (beats ns))
