-- ===== src/Nodes/Registration.antt =====
-- Registration with the router: `registReq` of src/core/RouterNode.cpp.
use snframe.Base.{
  ℕ, ◌+◌, ◌^◌, ◌≤◌, ◌<◌, ◌≡◌, refl, ◌∙◌, Bool, true, false, Option, none, some, List, [], ◌∷◌, ◌++◌,
  length, take, drop, ==_iff, ret, arith,
}
use snframe.Protocol.{ProtocolIds}
use snframe.Packet.{Msg, MessageLite}
use snframe.Packet.Body.{IsPacket}
use snframe.Nodes.{Node, node_able, new_node, set_state, check_node}
use snframe.Net.{ConnState}
use snframe.Nodes.Notify.{call_back}
use snframe.Nodes.Manager.{Services, get_service_node, on_service, on_node, mgr_find_node}
use snframe.Nodes.Request.{request_header, pb_message-IsPacket}
use snframe.Nodes.Router.{
  Registration, fits_ip, registered_node, connect_router, regist_on, regist_req,
}
use snframe.Nodes.Found.{has, get-on_service, find-on_node, find-push, find-on_service}
use snframe.Nodes.Joins.{add-registered}

-- The first descriptor among the answers.
abbrev pub first_some : List (Option ℕ) → Option ℕ
first_some [] = none
first_some (none ∷ answers) = first_some answers
first_some (some fd ∷ answers) = some fd

abbrev pub sum : List ℕ → ℕ
sum [] = 0
sum (x ∷ xs) = x + sum xs

-- `registReq` takes the first of four connections that succeeds and gives up where none of the four
-- does; it sleeps after each of the first three that fail, 14 seconds in all at most, and does not
-- connect again after it has a connection.
pub connect_router-first :
    (answers : List (Option ℕ))
    → ((connect_router 4 0 answers).0 ≡ first_some (take 4 answers))
      × (length (connect_router 4 0 answers).1 ≤ 3)
      × (sum (connect_router 4 0 answers).1 ≤ 14)
      × ((connect_router 4 0 answers).2 ≡ drop (length (connect_router 4 0 answers).1 + 1) answers)
unfolding connect_router
connect_router-first [] = (refl, omega arith, omega arith, refl)
connect_router-first (some a ∷ answers) = (refl, omega arith, omega arith, refl)
connect_router-first (none ∷ []) = (refl, omega arith, omega arith, refl)
connect_router-first (none ∷ some b ∷ answers) = (refl, omega arith, omega arith, refl)
connect_router-first (none ∷ none ∷ []) = (refl, omega arith, omega arith, refl)
connect_router-first (none ∷ none ∷ some c ∷ answers) = (refl, omega arith, omega arith, refl)
connect_router-first (none ∷ none ∷ none ∷ []) = (refl, omega arith, omega arith, refl)
connect_router-first (none ∷ none ∷ none ∷ none ∷ answers) = (refl, omega arith, omega arith, refl)
connect_router-first (none ∷ none ∷ none ∷ some d ∷ answers) =
    (refl, omega arith, omega arith, refl)

module _ (ids : ProtocolIds) (pb : MessageLite) (body ip : List ℕ) (fd : ℕ) (ss : Services)
    (ns : List Node) where
  pub router_node : Node
  unfolding new_node set_state
  router_node = registered_node fd (new_node ids.sid_router 0)

  found-router :
      get_service_node ids.sid_router ss ≡ some ns
      → has 0 ns ≡ false
      → mgr_find_node ids.sid_router 0 (
          on_service ids.sid_router
            (on_node 0 (registered_node fd))
            (on_service ids.sid_router (λ _. ns ++ new_node ids.sid_router 0 ∷ []) ss))
        ≡ some router_node
  unfolding router_node
  found-router e new =
      find-on_service ids.sid_router 0 (on_node 0 (registered_node fd)) _
        (ns ++ new_node ids.sid_router 0 ∷ [])
        (get-on_service ids.sid_router ids.sid_router _ ss
          ∙ rw ((==_iff ids.sid_router ids.sid_router).1 refl, e) refl)
      ∙ find-on_node 0 (registered_node fd) _ _ keeps_id (find-push 0 ids.sid_router ns new)
    where
      keeps_id : (m : Node) → (registered_node fd m).id ≡ m.id
      keeps_id m = unfold set_state in refl

  -- What is there where `registReq` has succeeded.
  pub regist_req-done :
      (answers : List (Option ℕ))
      → first_some (take 4 answers) ≡ some fd
      → get_service_node ids.sid_router ss ≡ some ns
      → fits_ip ip ≡ true
      → pb.serialize_to_array pb.byte_size ≡ some body
      → length body ≡ pb.byte_size
      → 1 ≤ pb.byte_size
      → pb.byte_size + 27 < 2 ^ 16
      → ids.sid_router < 2 ^ 16
      → ids.cid_router_client_register_req < 2 ^ 16
      → (m : Msg) × IsPacket m
          (request_header ids.sid_router ids.cid_router_client_register_req)
          body
        × (regist_req ids true true pb ip answers ss
            ≡ ret (
                some (record {
                  services =
                      on_service ids.sid_router
                        (on_node 0 (registered_node fd))
                        (on_service ids.sid_router (λ _. ns ++ new_node ids.sid_router 0 ∷ []) ss);
                  fd = fd;
                  cb = none;
                  request = some m;
                })))
  unfolding regist_req regist_on
  regist_req-done answers one e short s l lo hi f g =
      let (m, builds, p) =
        pb_message-IsPacket ids.sid_router ids.cid_router_client_register_req pb body s l lo hi f
          g in
      (
        m,
        p,
        rw
            (
              (connect_router-first answers).0,
              one,
              regist_req,
              regist_on,
              add-registered ids.sid_router 0 ss ns e,
              builds,
              short,
            )
            refl,
      )

  -- A registration where the configuration is there, one of four connections succeeds, the service of
  -- the router is registered and has no node 0, the address fits, malloc succeeds and protobuf
  -- writes the request: the request that is queued is a packet for the router with its command, and
  -- the router is a node of its service, in NODE_ABLE and with this connection. But the connection has no
  -- callback: no change of its state, also to STATE_ERROR and STATE_CLOSED, is told to the node, and
  -- `checkState` leaves a node in NODE_ABLE as it is.
  pub regist_req-router :
      (answers more : List (Option ℕ)) (later : ConnState) (granted : Bool)
      → first_some (take 4 answers) ≡ some fd
      → get_service_node ids.sid_router ss ≡ some ns
      → has 0 ns ≡ false
      → fits_ip ip ≡ true
      → pb.serialize_to_array pb.byte_size ≡ some body
      → length body ≡ pb.byte_size
      → 1 ≤ pb.byte_size
      → pb.byte_size + 27 < 2 ^ 16
      → ids.sid_router < 2 ^ 16
      → ids.cid_router_client_register_req < 2 ^ 16
      → (r : Registration) × (m : Msg) × (n : Node) × (regist_req ids true true pb ip answers ss
          ≡ ret (some r))
        × (r.request ≡ some m)
        × IsPacket m (request_header ids.sid_router ids.cid_router_client_register_req) body
        × (mgr_find_node ids.sid_router 0 r.services ≡ some n)
        × (n.state ≡ node_able)
        × (n.context ≡ some fd)
        × (call_back granted later r.cb ≡ ret (none, none))
        × (check_node true n more ≡ (some n, [], more))
  unfolding call_back
  regist_req-router answers more later granted one e new short s l lo hi f g =
      let (m, p, done) = regist_req-done answers one e short s l lo hi f g in
      (
        record {
          services =
              on_service ids.sid_router (on_node 0 (registered_node fd))
                (on_service ids.sid_router (λ _. ns ++ new_node ids.sid_router 0 ∷ []) ss);
          fd = fd;
          cb = none;
          request = some m;
        },
        m,
        router_node,
        done,
        refl,
        p,
        found-router e new,
        unfold router_node set_state in refl,
        unfold router_node in refl,
        refl,
        unfold check_node router_node set_state in refl,
      )
