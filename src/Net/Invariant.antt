-- ===== src/Net/Invariant.antt =====
-- Every step of the program keeps its connections well formed: the functions of
-- src/core/NetManager.cpp and of its callers.
use snframe.Base.{◌≡◌, refl, sym, false, some, [], ◌==◌}
use mathlib.Core.Path.{subst}
use snframe.Protocol.{ProtocolIds}
use snframe.Net.{
  NetManager, state_auth, state_none, is_connected, is_connected_or_auth, close_connection,
  send_sock, send_node, send_db, send_state,
}
use snframe.Net.Send.{has_fd}
use snframe.Net.Tcp.{set_conn_state}
use snframe.Net.Steps.{
  on_conn, new_connection, connect, accept, set_node_info, Writing, Process, idle, wrote, settle,
  Send, Act, Step, connects, accepts, closes, sends, to_sock, to_node, to_db, to_state,
  authenticates, marks, enrolls, reads, acts, writes, settles, interferes, Reach, here, next,
}
use snframe.Net.Places.{states-on_fd, erase_fd_sound, unique-erase}
use snframe.Net.Sound.{
  send_to-IsConns, covers_connected, covers_auth, IsConns, on_fd-IsConns, covers_connected,
  covers_auth,
}
use snframe.Net.Keeps.{answer_req-IsConns, new-IsConns}
use snframe.Net.Written.{rest_of, rest-IsConns, written-IsConns, state-sound, read-IsConns}

pub Send-IsConns :
    {ids : ProtocolIds} {m n : NetManager} → Send ids m n → IsConns m.conns → IsConns n.conns
Send-IsConns (to_sock n msg fd) v =
    unfold send_sock in send_to-IsConns (has_fd fd) is_connected msg covers_connected n v
Send-IsConns (to_node n msg nid) v =
    unfold send_node in send_to-IsConns (λ c. c.nid == nid) is_connected_or_auth msg covers_auth n v
Send-IsConns {ids} (to_db n msg) v =
    unfold send_db in
    send_to-IsConns (λ c. c.sid == ids.sid_db_proxy) is_connected_or_auth msg covers_auth n v
Send-IsConns {ids} (to_state n msg) v =
    unfold send_state in
    send_to-IsConns (λ c. c.sid == ids.sid_user_state) is_connected_or_auth msg covers_auth n v

pub Act-IsConns :
    {ids : ProtocolIds} {m n : NetManager} → Act ids m n → IsConns m.conns → IsConns n.conns
unfolding new_connection
Act-IsConns (connects n fd fresh) v = unfold connect in new-IsConns state_none fd n fresh v
Act-IsConns (accepts n fd fresh) v = unfold accept in new-IsConns state_auth fd n fresh v
Act-IsConns (closes n fd) (h, u) =
    unfold close_connection in (erase_fd_sound fd n.conns h, unique-erase fd n.conns u)
Act-IsConns (sends s) v = Send-IsConns s v
Act-IsConns (authenticates n fd sid nid msg) v = answer_req-IsConns fd sid nid msg n v
Act-IsConns (marks n s fd e) v =
    unfold set_conn_state in
    subst IsConns (sym (states-on_fd s fd n.conns)) (
      on_fd-IsConns fd (λ c. record c { state = s }) n.conns (λ c. refl)
        (λ c h. state-sound s c e h) v)
Act-IsConns (enrolls n fd sid nid) v =
    unfold set_node_info on_conn in
    on_fd-IsConns fd (λ c. record c { sid = sid; nid = nid }) n.conns (λ c. refl) (λ c h. h) v
Act-IsConns (reads n r client fd) v = read-IsConns r client fd n v

-- The connections are well formed, and will be where the call of `TcpServer::write` ends.
record IsProcess (p : Process) : Type 0 where
  now : IsConns p.net.conns
  then_too : (w : Writing) → p.writing ≡ some w → IsConns (settle w p.net).conns

idle-IsProcess : (n : NetManager) → IsConns n.conns → IsProcess (idle n)
idle-IsProcess n v = record { now = v; then_too = λ w e. cc }

Step-IsProcess :
    {ids : ProtocolIds} {p q : Process} → Step ids false p q → IsProcess p → IsProcess q
Step-IsProcess (acts a) i = idle-IsProcess _ (Act-IsConns a i.now)
Step-IsProcess (writes n r k finish client before c after e) i =
    unfold wrote settle in
    (record {
      now = unfold on_conn in rest-IsConns k finish before c after n e i.now;
      then_too = λ w same.
          subst (λ (w : Writing). IsConns (settle w (on_conn c.fd (rest_of k) n)).conns)
            (some_inj same) (written-IsConns k finish before c after n e i.now r client);
    })
  where
    some_inj : {v w : Writing} → some v ≡ some w → v ≡ w
    some_inj e = cc
Step-IsProcess (settles w n) i = idle-IsProcess (settle w n) (i.then_too w refl)
Step-IsProcess (interferes w h s) i = cc

reached :
    {ids : ProtocolIds} (n : NetManager) (q : Process)
    → Reach ids false (idle n) q
    → n.conns ≡ []
    → IsProcess q
reached n q here e = idle-IsProcess n (subst IsConns (sym e) (refl, refl))
reached n q (next r st) e = Step-IsProcess st (reached n _ r e)

-- A process without connections and without threads of the pool, where one thread does it all. In
-- whatever order connections whose descriptor no other has are made and accepted, connections are
-- closed, read, written, given ids, set to another state than STATE_CONNECTED, and authenticated by a
-- request whose answer is allocated, and messages are sent by the four senders: no two connections
-- have the same descriptor, and each that is connected and has a message in its queue is waited for to
-- be writable. `NodeMgr::AuthenticationRsp` is not among these steps.
pub Reach-IsConns :
    {ids : ProtocolIds} (n : NetManager) (q : Process)
    → Reach ids false (idle n) q
    → n.conns ≡ []
    → IsConns q.net.conns
Reach-IsConns n q r e = (reached n q r e).now
