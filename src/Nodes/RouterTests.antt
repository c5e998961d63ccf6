-- ===== src/Nodes/RouterTests.antt =====
-- Runs of src/core/RouterNode.cpp and of `NodeMgr::init` and `NodeMgr::AuthenticationReq` of
-- src/core/NodeMgr.cpp.
use snframe.Base.{
  ℕ, ◌≡◌, ◌≢◌, refl, true, false, none, some, List, [], ◌∷◌, ◌++◌, ret, fault, arith, Option,
}
use snframe.Protocol.{ProtocolIds}
use snframe.Packet.{Msg, MessageLite}
use snframe.Packet.Body.{IsPacket}
use snframe.Config.{get_config_name}
use snframe.Decimal.{atoi}
use snframe.Timer.{add_timer}
use snframe.Conn.{push}
use snframe.Net.{Connection, NetManager, state_auth, state_closed, state_connected}
use snframe.Net.Waiting.{waits}
use snframe.Nodes.{find_node, Node, node_able, check_node}
use snframe.Nodes.Notify.{call_back}
use snframe.Nodes.Manager.{get_service_node, mgr_find_node}
use snframe.Nodes.Request.{pb_message, request_header, pb_message-IsPacket}
use snframe.Nodes.Router.{
  ServerStatus, Joining, Registration, connect_router, regist_req, srvinfo_broadcast,
}
use snframe.Nodes.Found.{is_some, registered}
use snframe.Nodes.Broadcast.{servers_settled, broadcast-settles}
use snframe.Nodes.Registration.{regist_req-router}
use snframe.Nodes.Start.{mgr_init}
use snframe.Nodes.Services.{all_set}
use snframe.Nodes.Init.{with_router, mgr_init-router}
use snframe.Nodes.Messages.{
  Router, node_timer, node_id_key, regist_rsp, regist_rsp-node_id, regist_rsp-fault,
}
use snframe.Nodes.Answer.{authentication_req, authentication_req-answer}

abbrev ids : ProtocolIds
ids = record {
  sid_other = 1;
  sid_router = 2;
  sid_conn = 3;
  sid_db_proxy = 4;
  sid_user_state = 5;
  cid_other_authentication_req = 1;
  cid_other_authentication_rsp = 2;
  cid_other_heartbeat = 3;
  cid_router_client_register_req = 4;
  cid_router_client_register_rsp = 5;
  cid_router_push_server_status = 6;
}

abbrev five : MessageLite
five = record { byte_size = 1; serialize_to_array = λ n. some (5 ∷ []) }

pb_message-IsPacket_example :
    (m : Msg) × (pb_message true 2 4 five ≡ ret (some m)) × IsPacket m (request_header 2 4) (5 ∷ [])
pb_message-IsPacket_example =
    pb_message-IsPacket 2 4 five (5 ∷ []) refl refl (omega arith) (omega arith) (omega arith)
      (omega arith)

-- "1.2.3.4".
abbrev address : List ℕ
address = 49 ∷ 46 ∷ 50 ∷ 46 ∷ 51 ∷ 46 ∷ 52 ∷ []

-- A connection server, a database server, and one that is not enabled.
abbrev servers : List ServerStatus
servers =
    record { is_enable = true; node_id = 7; service_type = 3 ∷ 9 ∷ []; server_ip = address }
    ∷ record { is_enable = false; node_id = 8; service_type = 3 ∷ []; server_ip = address }
    ∷ record { is_enable = true; node_id = 9; service_type = 4 ∷ []; server_ip = address }
    ∷ []

abbrev idle : Joining
idle = record {
  services = (2, []) ∷ (3, []) ∷ (4, []) ∷ [];
  joined = [];
  answers = some 5 ∷ some 6 ∷ some 8 ∷ [];
}

broadcast-settles_example :
    (k : Joining) × (srvinfo_broadcast (some servers) idle ≡ ret (k, true))
    × (servers_settled k.services servers ≡ true)
    × ((type : ℕ) → registered type k.services ≡ registered type idle.services)
    × ((type nid : ℕ)
        → is_some (mgr_find_node type nid idle.services) ≡ true
        → is_some (mgr_find_node type nid k.services) ≡ true)
    × (srvinfo_broadcast (some servers) k ≡ ret (k, true))
broadcast-settles_example = broadcast-settles servers idle refl refl

abbrev third_try : List (Option ℕ)
third_try = none ∷ none ∷ some 5 ∷ []

regist_req-router_example :
    (r : Registration) × (m : Msg) × (n : Node) × (regist_req ids true true five address third_try
        idle.services
      ≡ ret (some r))
    × (r.request ≡ some m)
    × IsPacket m (request_header 2 4) (5 ∷ [])
    × (mgr_find_node 2 0 r.services ≡ some n)
    × (n.state ≡ node_able)
    × (n.context ≡ some 5)
    × (call_back true state_closed r.cb ≡ ret (none, none))
    × (check_node true n [] ≡ (some n, [], []))
unfolding get_service_node find_node
regist_req-router_example =
    regist_req-router ids five (5 ∷ []) address 5 idle.services [] third_try [] state_closed true
      refl refl refl refl refl refl (omega arith) (omega arith) (omega arith) (omega arith)

-- "3  2  4": a connection server, the router and a database server.
mgr_init-router_example :
    (m : Msg) × IsPacket m (request_header 2 4) (5 ∷ [])
    × (mgr_init ids true true true five address
          (some (51 ∷ 32 ∷ 32 ∷ 50 ∷ 32 ∷ 32 ∷ 52 ∷ []))
          third_try
        ≡ ret (
            some (
              51 ∷ [],
              record {
                table = all_set (with_router ids 5 ((51 ∷ []) ∷ []) ++ (4, []) ∷ []);
                registrations =
                    record {
                      services = with_router ids 5 ((51 ∷ []) ∷ []);
                      fd = 5;
                      cb = none;
                      request = some m;
                    }
                    ∷ [];
                answers = (connect_router 4 0 third_try).2;
              },
            )))
unfolding atoi
mgr_init-router_example =
    mgr_init-router ids five address (5 ∷ []) 5 ((51 ∷ []) ∷ []) third_try refl refl refl refl refl
      (omega arith) (omega arith) (omega arith) (omega arith) (51 ∷ []) (50 ∷ [])
      ((1, 50 ∷ []) ∷ (1, 52 ∷ []) ∷ []) ((52 ∷ []) ∷ []) refl refl (omega arith) refl refl refl
      refl refl

abbrev new_router : Router
new_router = record {
  m_id = 0;
  config = record { load_ok = true; config_map = [] };
  timers = [];
  nodes = idle;
}

regist_rsp-node_id_example :
    (q : Router) × (value : List ℕ) × (regist_rsp (some 12) new_router ≡ ret (q, true))
    × (q.m_id ≡ 12)
    × (get_config_name node_id_key q.config ≡ some value)
    × (atoi value ≡ 12)
    × (get_config_name (1 ∷ []) q.config ≡ get_config_name (1 ∷ []) new_router.config)
    × (q.nodes ≡ new_router.nodes)
    × (q.timers ≡ add_timer node_timer 1 new_router.timers)
regist_rsp-node_id_example = regist_rsp-node_id new_router 12 (1 ∷ []) refl (omega arith) different
  where
    different : node_id_key ≢ 1 ∷ []
    different e = ground arith

regist_rsp-fault_example : regist_rsp (some 1000000000) new_router ≡ fault
regist_rsp-fault_example = regist_rsp-fault new_router 1000000000 (omega arith) (omega arith)

abbrev fresh : Connection
fresh = record { fd = 3; sid = 0; nid = 0; state = state_auth; evs = 1; out_buffer = [] }

authentication_req-answer_example :
    (n : NetManager) × (d : Connection) × (m : Msg) × (authentication_req ids true
        (λ type nid. five)
        (some (3, 7))
        3
        (record { conns = fresh ∷ []; events = [] })
      ≡ ret n)
    × (n.conns ≡ d ∷ [])
    × ((d.sid ≡ 3) × (d.nid ≡ 7) × (d.state ≡ state_connected))
    × (d.out_buffer ≡ push [] m)
    × IsPacket m (request_header 1 2) (5 ∷ [])
    × (waits d ≡ true)
authentication_req-answer_example =
    authentication_req-answer ids (λ type nid. five) 3 7 (5 ∷ []) [] fresh [] [] refl refl refl refl
      (omega arith) (omega arith) (omega arith) (omega arith)
