-- ===== src/Net/Race.antt =====
-- A thread of the pool sends while `TcpServer::write` of src/core/TcpServer.cpp is between
-- `conn->empty()` and `delFileEvent`.
use Prim.Native.Nat.{bit_and}
use snframe.Base.{
  ℕ, ◌-◌, ◌<◌, ◌≡◌, refl, ap, ◌∙◌, Bool, true, false, none, List, [], ◌∷◌, ◌++◌, drop, ◌==◌, arith,
}
use snframe.Packet.{Msg}
use snframe.Protocol.{ProtocolIds}
use snframe.Conn.{push, io_finish}
use snframe.Net.{
  Connection, NetManager, ae_writable, is_connected, send_sock, del_events, del_file_event,
}
use snframe.Net.Send.{any, has_fd, send_sock-first}
use snframe.Net.Drop.{del_events-first}
use snframe.Net.Tcp.{tcp_write}
use snframe.Net.Waiting.{waits, is_armed, quiet-evs}
use snframe.Net.Places.{on_fd-first}
use snframe.Net.Written.{rest_of}
use snframe.Net.Steps.{
  on_conn, on_fd, Process, idle, wrote, settle, Reach, here, next, writes, interferes, settles,
  to_sock,
}

-- The connection at the end: its queue holds the message alone.
abbrev pub lost : Connection → Msg → Connection
lost c msg = record c { evs = c.evs - bit_and c.evs ae_writable; out_buffer = msg ∷ [] }

lost-stuck :
    (c : Connection) (msg : Msg)
    → c.evs < 8
    → is_connected c.state ≡ true
    → waits (lost c msg) ≡ false
lost-stuck c msg small ready = rw (ready, quiet-evs c.evs small) refl

module _ (n : NetManager) (k : ℕ) (client : Bool) (before : List Connection) (c : Connection)
    (after : List Connection) (msg : Msg) (e : n.conns ≡ before ++ c ∷ after)
    (none_before : any (has_fd c.fd) before ≡ false) (all_sent : drop k c.out_buffer ≡ [])
    (ready : is_connected c.state ≡ true) (waiting : is_armed c ≡ true) where
  kept_event : (bit_and c.evs ae_writable == 0) ≡ false
  kept_event = ground (arith, waiting)

  -- The send finds the writable event still there, and adds none.
  sent-meanwhile :
      (send_sock msg c.fd (on_conn c.fd (rest_of k) n)).0.conns
      ≡ before ++ record c { out_buffer = msg ∷ [] } ∷ after
  unfolding on_conn push
  sent-meanwhile =
      ap (λ cs. (send_sock msg c.fd (record { conns = cs; events = n.events })).0.conns)
        (ap (on_fd c.fd (rest_of k)) e ∙ on_fd-first (rest_of k) before c after none_before)
      ∙ ap (λ r. r.0.conns)
          (send_sock-first msg c.fd before (rest_of k c) after n.events none_before refl)
      ∙ rw (ready, kept_event, all_sent) refl

  settled :
      (settle
        (record { result = io_finish; empty = true; client = client; fd = c.fd })
        (send_sock msg c.fd (on_conn c.fd (rest_of k) n)).0).conns
      ≡ before ++ lost c msg ∷ after
  unfolding settle tcp_write del_file_event
  settled =
      ap (λ cs. (del_events c.fd ae_writable cs).0) sent-meanwhile
      ∙ del_events-first ae_writable before (record c { out_buffer = msg ∷ [] }) after none_before
      ∙ rw kept_event refl

  -- A connection that is connected and waited for to be writable, no other before it with its
  -- descriptor. `Connection::write` sends all of its queue, and `conn->empty()` answers true; before
  -- `delFileEvent` a thread of the pool sends a message to it. These steps of the process end where
  -- the connection is connected, the message alone stands in its queue, and nothing waits for the
  -- connection to be writable.
  pub write-loses :
      (ids : ProtocolIds)
      → c.evs < 8
      → (p : Process) × Reach ids true (idle n) p
        × (p.writing ≡ none)
        × (p.net.conns ≡ before ++ lost c msg ∷ after)
        × (waits (lost c msg) ≡ false)
  unfolding wrote
  write-loses ids small = (
    _,
    next
        (next (next here (writes n io_finish k true client before c after e))
          (interferes _ refl (to_sock _ msg c.fd)))
        (settles _ _),
    refl,
    rw all_sent settled,
    lost-stuck c msg small ready,
  )
