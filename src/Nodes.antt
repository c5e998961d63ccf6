-- ===== src/Nodes.antt =====
-- `Node` and `ServiceNode` of src/core/Node.cpp and src/core/ServiceNode.cpp: the state of a node, the
-- turn in which broken nodes are connected again or given up, and the heartbeats. Connections are
-- named by their descriptors, and what is done with them is a list of effects, in order; the answers
-- of `connect` are a list.
pub mod Reconnect
pub mod Lookup
pub mod Manager
pub mod Authentication
pub mod Stalls
pub mod Notify
pub mod Request
pub mod Router
pub mod Found
pub mod Joins
pub mod Broadcast
pub mod Registration
pub mod Start
pub mod Services
pub mod Init
pub mod Messages
pub mod Answer
mod Tests
mod RouterTests
use snframe.Base.{
  ℕ, ◌+◌, ◌%◌, ◌^◌, Bool, true, false, ◌&&◌, ◌||◌, Option, none, some, List, [], ◌∷◌, ◌++◌, ltb,
  ◌==◌, if◌then◌else◌,
}

pub data NodeState : Type 0 where
  node_unable : NodeState
  node_auth : NodeState
  node_able : NodeState
  node_error : NodeState
  node_closed : NodeState

pub record Node : Type 0 where
  pub num : ℕ
  pub id : ℕ
  pub type : ℕ
  pub state : NodeState
  pub context : Option ℕ
  pub persist : Bool

unfoldable pub new_node : ℕ → ℕ → Node
new_node sid nid = record {
  num = 0;
  id = nid;
  type = sid;
  state = node_unable;
  context = none;
  persist = true;
}

abbrev pub is_auth : NodeState → Bool
is_auth node_auth = true
is_auth _ = false

abbrev pub is_able : NodeState → Bool
is_able node_able = true
is_able _ = false

abbrev pub is_broken : NodeState → Bool
is_broken node_error = true
is_broken node_closed = true
is_broken _ = false

unfoldable pub set_state : NodeState → Node → Node
set_state s n = record n { num = if is_auth n.state then 0 else n.num; state = s }

-- `m_persist && m_num++ < 4`.
unfoldable pub need_reconnect : Node → Node × Bool
need_reconnect n =
    (record n { num = if n.persist then n.num + 1 else n.num }, n.persist && ltb n.num 4)

unfoldable pub clear : Node → Node
clear n = record n { num = 0; state = node_unable; context = none }

-- What is done with connections: the authentication request is sent on one, a new one takes over the
-- queue and the callback of an old one, one is closed, one gets the ids of a node and the state
-- STATE_AUTH; and the service is started again.
pub data Effect : Type 0 where
  authenticates : ℕ → ℕ → Effect
  takes_over : ℕ → ℕ → Effect
  closes : ℕ → Effect
  enrolls : ℕ → ℕ → Effect
  reinits : Effect

abbrev pub next_connect : List (Option ℕ) → Option ℕ × List (Option ℕ)
next_connect [] = (none, [])
next_connect (a ∷ answers) = (a, answers)

-- The old connection of a node that has a new one.
abbrev pub replaced : ℕ → Option ℕ → List Effect
replaced fd none = []
replaced fd (some old) = takes_over fd old ∷ closes old ∷ []

abbrev pub closed : Option ℕ → List Effect
closed none = []
closed (some old) = closes old ∷ []

-- The result of a turn on one node: the node, unless it is given up, what was done, and the answers
-- that are left.
abbrev pub Turn : Type 0
Turn = Option Node × List Effect × List (Option ℕ)

abbrev pub reconnected : Node → ℕ → Node
reconnected n fd = record (set_state node_auth n) { context = some fd }

unfoldable pub try_connect : Node → List (Option ℕ) → Turn
try_connect n answers =
    let (answer, rest) = next_connect answers in
    elim answer [
      | none ↦ (some n, [], rest)
      | some fd ↦ (
        some (reconnected n fd),
        authenticates fd n.id ∷ replaced fd n.context ++ enrolls fd n.id ∷ [],
        rest,
      )
    ]

-- The body of the loop of `checkState`; `router` is whether the service is the router's.
unfoldable pub check_node : Bool → Node → List (Option ℕ) → Turn
check_node router n answers =
    let (m, again) = need_reconnect n in
    if is_broken n.state
    then (if again
        then try_connect m answers
        else (none, closed n.context ++ (if router then reinits ∷ [] else []), answers))
    else (some n, [], answers)

abbrev pub kept : Option Node → List Node → List Node
kept none ns = ns
kept (some n) ns = n ∷ ns

-- A node that `reinit` adds comes behind the others, and is able: the loop passes over it.
unfoldable pub check_state : Bool → List Node → List (Option ℕ) → List Node × List Effect
check_state router [] answers = ([], [])
check_state router (n ∷ ns) answers =
    let (m, effects, rest) = check_node router n answers in
    let (ms, more) = check_state router ns rest in (kept m ms, effects ++ more)

unfoldable pub find_node : ℕ → List Node → Option Node
find_node nid [] = none
find_node nid (n ∷ ns) = if n.id == nid then some n else find_node nid ns

-- `none` stands for the result NULL.
unfoldable pub add_node : ℕ → ℕ → ℕ → List Node → Option (List Node)
add_node own sid nid ns = if sid == own then some (ns ++ new_node sid nid ∷ []) else none

unfoldable pub available : ℕ → List Node → Bool
available nid ns = elim (find_node nid ns) [
  | none ↦ false
  | some n ↦ is_able n.state || is_auth n.state
]

-- The connections that get a heartbeat.
unfoldable pub beats : List Node → List ℕ
beats [] = []
beats (n ∷ ns) =
    let rest = beats ns in
    if is_able n.state then elim n.context [ none ↦ rest | some fd ↦ fd ∷ rest ] else rest

-- `heartBeat`, with its static counter, which all services share.
unfoldable pub heart_beat : ℕ → List Node → ℕ × List ℕ
heart_beat loop ns = if loop % 300 == 0 then ((loop + 1) % 2 ^ 32, beats ns) else (loop, [])
