-- ===== src/Net/Tests.antt =====
-- Runs of src/core/NetManager.cpp on two connections.
use Prim.Native.Nat.{bit_and}
use snframe.Base.{
  List, ◌≡◌, refl, true, false, ◌&&◌, none, some, arith, [], ◌∷◌, ◌==◌, if◌then◌else◌,
}
use snframe.Packet.{Msg}
use snframe.Conn.{push}
use snframe.Conn.{io_error, io_closed, io_finish}
use snframe.Net.Tcp.{set_conn_state, states, tcp_write, tcp_read}
use snframe.Net.Drop.{drop-io}
use snframe.Net.{
  send_node, add_connection, ConnState, state_error, state_closed, Connection, NetManager,
  state_auth, state_connected, is_connected_or_auth, added, ae_writable, send_to, send_sock, notify,
  push_first, add_file_event, add_events, del_events, del_file_event,
}
use snframe.Protocol.{ProtocolIds}
use snframe.Net.Steps.{
  connect, new_connection, answer_req, set_node_info, on_conn, on_fd, Reach, here, next, connects,
  authenticates, to_node, acts, sends, writes, settles, Process, idle, wrote, settle,
}
use snframe.Net.Invariant.{Reach-IsConns}
use snframe.Net.Race.{lost, write-loses}
use snframe.Net.Waiting.{waits}
use snframe.Net.Sound.{IsConns}
use snframe.Net.Send.{queued, armed, send_to-first}

abbrev one_byte : Msg
one_byte = record { m_data = some (5 ∷ []); m_len = 1; m_alloc = 1 }

abbrev first : Connection
first = record { fd = 3; sid = 1; nid = 7; state = state_auth; evs = 1; out_buffer = [] }

abbrev second : Connection
second = record { fd = 4; sid = 2; nid = 8; state = state_connected; evs = 1; out_buffer = [] }

abbrev both : NetManager
both = record { conns = first ∷ second ∷ []; events = [] }

sent_to_second : send_sock one_byte 4 both ≡ (
  record {
    conns = first ∷ record second { evs = 3; out_buffer = one_byte ∷ [] } ∷ [];
    events = added 4 2 ∷ [];
  },
  true,
)
unfolding send_sock send_to push_first notify add_file_event add_events push
sent_to_second = refl

send_to-first_example : send_to (λ c. c.nid == 8) is_connected_or_auth one_byte both ≡ (
  (if true && (bit_and 1 ae_writable == 0)
      then record { conns = first ∷ armed second one_byte ∷ []; events = added 4 ae_writable ∷ [] }
      else record { conns = first ∷ queued second one_byte ∷ []; events = [] }),
  true,
)
send_to-first_example =
    send_to-first (λ c. c.nid == 8) is_connected_or_auth one_byte (first ∷ []) second [] [] refl
      refl refl

abbrev third : Connection
third = record { fd = 5; sid = 2; nid = 9; state = state_auth; evs = 0; out_buffer = [] }

abbrev all_but_second : ConnState → List Connection
all_but_second s = first ∷ []

drop-io_example :
    ((tcp_write io_error true false 4 both).conns ≡ all_but_second state_error)
    × ((tcp_write io_closed true false 4 both).conns ≡ all_but_second state_closed)
    × ((tcp_read io_error false 4 both).0.conns ≡ all_but_second state_error)
    × ((tcp_read io_closed false 4 both).0.conns ≡ all_but_second state_closed)
    × ((tcp_read io_error false 4 both).1 ≡ false)
    × ((tcp_read io_closed false 4 both).1 ≡ false)
drop-io_example = drop-io true false (first ∷ []) second [] both refl refl

abbrev ids : ProtocolIds
ids = record {
  sid_other = 1;
  sid_router = 2;
  sid_conn = 3;
  sid_db_proxy = 4;
  sid_user_state = 5;
  cid_other_authentication_req = 1;
  cid_other_authentication_rsp = 2;
  cid_other_heartbeat = 3;
  cid_router_client_register_req = 4;
  cid_router_client_register_rsp = 5;
  cid_router_push_server_status = 6;
}

abbrev no_conns : NetManager
no_conns = record { conns = []; events = [] }

-- A connection is made, a request comes on it and is answered, and a message is sent to its node.
abbrev made : NetManager
made = (connect (some 3) no_conns).0

abbrev answered : NetManager
answered = answer_req 3 1 7 (some one_byte) made

abbrev spoken : NetManager
spoken = (send_node one_byte 7 answered).0

abbrev its : Connection
its = record {
  fd = 3;
  sid = 1;
  nid = 7;
  state = state_connected;
  evs = 3;
  out_buffer = one_byte ∷ one_byte ∷ [];
}

spoken-queue : spoken.conns ≡ its ∷ []
unfolding send_node send_to push_first notify add_file_event add_events push connect add_connection
    new_connection answer_req set_conn_state states set_node_info on_conn on_fd send_sock
spoken-queue = refl

-- Then the socket takes both messages.
abbrev flushing : Process
flushing = wrote io_finish 2 true false its.fd its.out_buffer spoken

abbrev flushed : Process
flushed =
    idle (settle (record { result = io_finish; empty = true; client = false; fd = 3 }) flushing.net)

run : Reach ids false (idle no_conns) flushed
unfolding wrote
run =
    next
      (next
        (next
          (next (next here (acts (connects no_conns 3 refl)))
            (acts (authenticates made 3 1 7 one_byte)))
          (acts (sends (to_node answered one_byte 7))))
        (writes spoken io_finish 2 true false [] its [] spoken-queue))
      (settles (record { result = io_finish; empty = true; client = false; fd = 3 }) flushing.net)

flushed-queue : flushed.net.conns ≡ record its { evs = 1; out_buffer = [] } ∷ []
unfolding send_node send_to push_first notify add_file_event add_events push connect add_connection
    new_connection answer_req set_conn_state states set_node_info on_conn on_fd send_sock wrote
    settle tcp_write del_file_event del_events
flushed-queue = refl

Reach-IsConns_example : IsConns flushed.net.conns
Reach-IsConns_example = Reach-IsConns no_conns flushed run refl

-- A third message, while the first two are written.
write-loses_example :
    (p : Process) × Reach ids true (idle spoken) p
    × (p.writing ≡ none)
    × (p.net.conns ≡ lost its one_byte ∷ [])
    × (waits (lost its one_byte) ≡ false)
write-loses_example =
    write-loses spoken 2 true [] its [] one_byte spoken-queue refl refl refl refl ids (omega arith)
