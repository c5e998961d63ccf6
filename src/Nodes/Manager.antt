-- ===== src/Nodes/Manager.antt =====
-- `NodeMgr` of src/core/NodeMgr.cpp: the table of services, and the two authentication messages. A
-- service is its id with its nodes. What protobuf reads of a message is an argument: the service and
-- the node id, or nothing where the message does not parse.
use snframe.Base.{ℕ, ◌%◌, ◌^◌, Bool, false, Option, none, some, List, [], ◌∷◌, ◌==◌, if◌then◌else◌}
use snframe.Protocol.{ProtocolIds}
use snframe.Net.{NetManager, state_connected}
use snframe.Net.Tcp.{set_conn_state}
use snframe.Nodes.{Node, node_able, set_state, find_node, add_node, available}

abbrev pub Services : Type 0
Services = List (ℕ × List Node)

unfoldable pub get_service_node : ℕ → Services → Option (List Node)
get_service_node sid [] = none
get_service_node sid ((own, ns) ∷ ss) = if own == sid then some ns else get_service_node sid ss

-- A function on the nodes of the first service with this id.
unfoldable pub on_service : ℕ → (List Node → List Node) → Services → Services
on_service sid f [] = []
on_service sid f ((own, ns) ∷ ss) =
    if own == sid then (own, f ns) ∷ ss else (own, ns) ∷ on_service sid f ss

unfoldable pub mgr_add_node : ℕ → ℕ → Services → Option Services
mgr_add_node sid nid ss = elim (get_service_node sid ss) [
  | none ↦ none
  | some ns ↦ elim (add_node sid sid nid ns) [
    | none ↦ none
    | some ms ↦ some (on_service sid (λ _. ms) ss)
  ]
]

unfoldable pub mgr_find_node : ℕ → ℕ → Services → Option Node
mgr_find_node sid nid ss = elim (get_service_node sid ss) [
  | none ↦ none
  | some ns ↦ find_node nid ns
]

unfoldable pub mgr_available : ℕ → ℕ → Services → Bool
mgr_available sid nid ss = elim (get_service_node sid ss) [
  | none ↦ false
  | some ns ↦ available nid ns
]

-- A function on the first node with this id.
unfoldable pub on_node : ℕ → (Node → Node) → List Node → List Node
on_node nid f [] = []
on_node nid f (n ∷ ns) = if n.id == nid then f n ∷ ns else n ∷ on_node nid f ns

-- The message came on the connection `fd`. A node that is known is set to NODE_ABLE, and the connection
-- to STATE_CONNECTED.
unfoldable pub authentication_rsp :
    Option (ℕ × ℕ) → ℕ → Services → NetManager → Services × NetManager
authentication_rsp none fd ss n = (ss, n)
authentication_rsp (some (type, nid)) fd ss n =
    let sid = type % 2 ^ 16 in
    elim (mgr_find_node sid nid ss) [
      | none ↦ (ss, n)
      | some _ ↦ (
        on_service sid (on_node nid (set_state node_able)) ss,
        set_conn_state state_connected fd n,
      )
    ]

-- `parse`: which of the two handlers is called.
pub data Common : Type 0 where
  calls_req : Common
  calls_rsp : Common
  calls_none : Common

unfoldable pub parse_common : ProtocolIds → ℕ → Common
parse_common ids cid =
    if cid == ids.cid_other_authentication_req
    then calls_req
    else if cid == ids.cid_other_authentication_rsp
    then calls_rsp
    else calls_none
