-- ===== src/Nodes/Router.antt =====
-- `srvinfoBroadcast` and `registReq` of src/core/RouterNode.cpp: the router tells which servers there
-- are, and the process connects to those that it has a service for. The answers of `connect` are a
-- list of descriptors; protobuf's view of the message is an argument.
use snframe.Base.{
  ℕ, zero, suc, ◌+◌, ◌^◌, Bool, true, false, Option, none, some, List, [], ◌∷◌, ◌++◌, length, ltb,
  if◌then◌else◌, Outcome, ret, fault, ◌>>=◌, access,
}
use snframe.Protocol.{ProtocolIds}
use snframe.Packet.{Msg, MessageLite}
use snframe.Nodes.{Node, node_auth, node_able, set_state, next_connect}
use snframe.Nodes.Manager.{
  Services, get_service_node, on_service, on_node, mgr_find_node, mgr_add_node,
}
use snframe.Nodes.Request.{pb_message}

-- IM::Server::ServerStatus, as far as it is read.
pub record ServerStatus : Type 0 where
  pub is_enable : Bool
  pub node_id : ℕ
  pub service_type : List ℕ
  pub server_ip : List ℕ

-- What the broadcast works on: the nodes, the connections that it has made (descriptor, service type
-- and node id; each gets these ids, the state STATE_AUTH, the callback notifyNodeState and an
-- authentication request), and the answers of connect that are left.
pub record Joining : Type 0 where
  pub services : Services
  pub joined : List (ℕ × ℕ × ℕ)
  pub answers : List (Option ℕ)

-- `setAddrs` copies the address into 16 bytes, by strcpy.
abbrev pub fits_ip : List ℕ → Bool
fits_ip ip = ltb (length ip) 16

abbrev pub joining : ℕ → Node → Node
joining fd n = record (set_state node_auth n) { context = some fd }

-- The node is added and gets its connection.
unfoldable pub join_node : ℕ → ℕ → ℕ → List ℕ → Joining → Outcome Joining
join_node type nid fd ip j = elim (mgr_add_node type nid j.services) [
  | none ↦ ret j
  | some ss ↦ access (fits_ip ip) (record j {
    services = on_service type (on_node nid (joining fd)) ss;
    joined = j.joined ++ (fd, type, nid) ∷ [];
  })
]

-- What follows on `connect`.
unfoldable pub join_connected :
    ℕ → List ℕ → ℕ → Joining → Option ℕ × List (Option ℕ) → Outcome (Joining × Bool)
join_connected nid ip type j (none, rest) = ret (record j { answers = rest }, false)
join_connected nid ip type j (some fd, rest) =
    join_node type nid fd ip (record j { answers = rest }) >>= λ k. ret (k, true)

-- The body of the inner loop; `false` ends the broadcast.
unfoldable pub join_type : ℕ → List ℕ → ℕ → Joining → Outcome (Joining × Bool)
join_type nid ip type j = elim (mgr_find_node type nid j.services) [
  | some _ ↦ ret (j, true)
  | none ↦ elim (get_service_node type j.services) [
    | none ↦ ret (j, true)
    | some _ ↦ join_connected nid ip type j (next_connect j.answers)
  ]
]

-- A loop that `return false` leaves.
abbrev pub and_then : {A : Type 0} → (A → Outcome (A × Bool)) → A × Bool → Outcome (A × Bool)
and_then go (j, true) = go j
and_then go (j, false) = ret (j, false)

unfoldable pub join_types : ℕ → List ℕ → List ℕ → Joining → Outcome (Joining × Bool)
join_types nid ip [] j = ret (j, true)
join_types nid ip (type ∷ types) j = join_type nid ip type j >>= and_then (join_types nid ip types)

unfoldable pub join_server : ServerStatus → Joining → Outcome (Joining × Bool)
join_server s j =
    if s.is_enable then join_types s.node_id s.server_ip s.service_type j else ret (j, true)

unfoldable pub join_servers : List ServerStatus → Joining → Outcome (Joining × Bool)
join_servers [] j = ret (j, true)
join_servers (s ∷ servers) j = join_server s j >>= and_then (join_servers servers)

-- `none` is a message that does not parse.
unfoldable pub srvinfo_broadcast : Option (List ServerStatus) → Joining → Outcome (Joining × Bool)
srvinfo_broadcast none j = ret (j, false)
srvinfo_broadcast (some servers) j = join_servers servers j

-- The loop of `registReq` over `i`, with the seconds that it sleeps and the answers that are left.
unfoldable pub connect_router : ℕ → ℕ → List (Option ℕ) → Option ℕ × List ℕ × List (Option ℕ)
connect_router zero i answers = (none, [], answers)
connect_router (suc zero) i answers =
    let (answer, rest) = next_connect answers in (answer, [], rest)
connect_router (suc (suc more)) i answers =
    let (answer, rest) = next_connect answers in
    let again = connect_router (suc more) (i + 1) rest in
    elim answer [ some fd ↦ (some fd, [], rest) | none ↦ (again.0, 2 ^ (i + 1) ∷ again.1, again.2) ]

-- What is left of a registration: the nodes, the connection with the router, which gets the router's
-- service id, the node id 0 and the state STATE_CONNECTED, the node that its callback is told of, which
-- is set nowhere here and stays NULL, and the request that is queued on it.
pub record Registration : Type 0 where
  pub services : Services
  pub fd : ℕ
  pub cb : Option Node
  pub request : Option Msg

abbrev pub registered_node : ℕ → Node → Node
registered_node fd n = record (set_state node_able n) { context = some fd; persist = false }

-- What follows on the connection. `addNode` is not looked at for NULL.
unfoldable pub regist_on :
    ProtocolIds → Bool → MessageLite → List ℕ → ℕ → Services → Outcome Registration
regist_on ids granted pb ip fd ss = elim (mgr_add_node ids.sid_router 0 ss) [
  | none ↦ fault
  | some ts ↦ pb_message granted ids.sid_router ids.cid_router_client_register_req pb >>= λ request.
      access (fits_ip ip) (record {
        services = on_service ids.sid_router (on_node 0 (registered_node fd)) ts;
        fd = fd;
        cb = none;
        request = request;
      })
]

-- `configured`: both values of the listening address are there. `none` is the answer IM_ERR before
-- anything is changed; where `request` is nothing, the answer is IM_ERR too.
unfoldable pub regist_req :
    ProtocolIds
    → Bool
    → Bool
    → MessageLite
    → List ℕ
    → List (Option ℕ)
    → Services
    → Outcome (Option Registration)
regist_req ids configured granted pb ip answers ss =
    if configured
    then (elim (connect_router 4 0 answers).0 [
      | none ↦ ret none
      | some fd ↦ regist_on ids granted pb ip fd ss >>= λ r. ret (some r)
    ])
    else ret none
