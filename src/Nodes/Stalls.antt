-- ===== src/Nodes/Stalls.antt =====
-- The answer to an authentication request, `NodeMgr::AuthenticationRsp` of src/core/NodeMgr.cpp, and
-- what was queued before it.
use snframe.Base.{ℕ, ◌%◌, ◌^◌, some, ◌≡◌, refl, ap, ◌∙◌, false, true, List, [], ◌∷◌, ◌++◌, arith}
use snframe.Packet.{Msg}
use snframe.Conn.{push}
use snframe.Net.{Connection, NetManager, NetEvent, state_auth, state_connected, send_sock}
use snframe.Net.Send.{any, has_fd, queued, send_sock-first}
use snframe.Net.Tcp.{states, set_conn_state}
use snframe.Net.Waiting.{is_nil, waits, is_armed}
use snframe.Nodes.{Node, node_able, set_state, find_node}
use snframe.Nodes.Manager.{
  Services, get_service_node, mgr_find_node, mgr_available, authentication_rsp,
}
use snframe.Nodes.Authentication.{rsp-known, rsp-able}
use snframe.Net.Places.{states-on_fd, on_fd-first}

nil-push : (q : List Msg) (msg : Msg) → is_nil (push q msg) ≡ false
unfolding push
nil-push [] msg = refl
nil-push (m ∷ q) msg = refl

-- A message goes by `sendSock` to a connection that is not yet authenticated and not waited for to be
-- writable, and then the answer to its authentication comes, for a node that is known, whatever its
-- state. After the answer the node is in NODE_ABLE and available and the connection is connected, but
-- the message is in the queue still, and the connection is not waited for to be writable. The other
-- connections are as they were.
pub rsp-stalls :
    (type nid : ℕ) (ss : Services) (ns : List Node) (n : Node) (msg : Msg)
    (before : List Connection) (c : Connection) (after : List Connection) (events : List NetEvent)
    → get_service_node (type % 2 ^ 16) ss ≡ some ns
    → find_node nid ns ≡ some n
    → any (has_fd c.fd) before ≡ false
    → c.state ≡ state_auth
    → is_armed c ≡ false
    → let sent : NetManager =
        (send_sock msg c.fd (record { conns = before ++ c ∷ after; events = events })).0 in
      (d : Connection) × ((authentication_rsp (some (type, nid)) c.fd ss sent).1.conns
        ≡ before ++ d ∷ after)
      × (mgr_find_node (type % 2 ^ 16) nid (authentication_rsp (some (type, nid)) c.fd ss sent).0
          ≡ some (set_state node_able n))
      × (mgr_available (type % 2 ^ 16) nid (authentication_rsp (some (type, nid)) c.fd ss sent).0
          ≡ true)
      × (d.state ≡ state_connected)
      × (d.out_buffer ≡ c.out_buffer ++ msg ∷ [])
      × (waits d ≡ false)
unfolding set_conn_state
rsp-stalls type nid ss ns n msg before c after events e f none_before auth bare = (
  record (queued c msg) { state = state_connected },
  ap (λ r. r.1.conns) (rsp-known type nid ss ns n e f c.fd _)
      ∙ ap (states state_connected c.fd) held
      ∙ states-on_fd state_connected c.fd (before ++ queued c msg ∷ after)
      ∙ on_fd-first (λ d. record d { state = state_connected }) before (queued c msg) after
          none_before,
  ap (λ r. mgr_find_node (type % 2 ^ 16) nid r.0) (rsp-known type nid ss ns n e f c.fd _)
      ∙ (rsp-able type nid ss ns n e f).0,
  ap (λ r. mgr_available (type % 2 ^ 16) nid r.0) (rsp-known type nid ss ns n e f c.fd _)
      ∙ (rsp-able type nid ss ns n e f).1,
  refl,
  unfold push in refl,
  ground (arith, nil-push c.out_buffer msg),
)
  where
    held :
        (send_sock msg c.fd (record { conns = before ++ c ∷ after; events = events })).0.conns
        ≡ before ++ queued c msg ∷ after
    held =
        ap (λ r. r.0.conns) (send_sock-first msg c.fd before c after events none_before refl)
        ∙ rw auth refl
