-- ===== src/Nodes/Answer.antt =====
-- `NodeMgr::AuthenticationReq` of src/core/NodeMgr.cpp: a process that has connected names itself and
-- gets an answer.
use Prim.Native.Nat.{bit_and}
use snframe.Base.{
  ℕ, ◌+◌, ◌%◌, ◌^◌, ◌≤◌, ◌<◌, ◌≡◌, refl, ap, ◌∙◌, Bool, Bool-cases, and_inv, inl, inr, true, false,
  Option, none, some, List, [], ◌∷◌, ◌++◌, length, ltb, ◌==◌, if◌then◌else◌, Outcome, ret, ◌>>=◌,
}
use snframe.Protocol.{ProtocolIds}
use snframe.Packet.{Msg, MessageLite}
use snframe.Packet.Body.{IsPacket}
use snframe.Conn.{push}
use snframe.Net.{Connection, NetManager, NetEvent, added, state_connected, ae_writable, send_sock}
use snframe.Net.Send.{any, has_fd, armed, queued, send_sock-first}
use snframe.Net.Tcp.{states, set_conn_state}
use snframe.Net.Waiting.{waits, armed-sound, queued-sound}
use snframe.Net.Steps.{on_fd, on_conn, set_node_info, answer_req}
use snframe.Net.Places.{states-on_fd, on_fd-on_fd, on_fd-first}
use snframe.Net.Sound.{sent_net}
use snframe.Net.Keeps.{greeted}
use snframe.Nodes.Request.{pb_message, request_header, pb_message-IsPacket}

-- What protobuf reads of the message is the service type and the node id, or nothing; `rsp` is the
-- answer that it makes of these.
unfoldable pub authentication_req :
    ProtocolIds
    → Bool
    → (ℕ → ℕ → MessageLite)
    → Option (ℕ × ℕ)
    → ℕ
    → NetManager
    → Outcome NetManager
authentication_req ids granted rsp none fd n = ret n
authentication_req ids granted rsp (some (type, nid)) fd n =
    pb_message granted ids.sid_other ids.cid_other_authentication_rsp (rsp type nid) >>= λ answer.
    ret (answer_req fd (type % 2 ^ 16) nid answer n)

-- The connection that the answer is queued on.
abbrev answered_conn : ℕ → ℕ → Msg → Connection → Connection
answered_conn sid nid m c =
    if bit_and c.evs ae_writable == 0
    then armed (greeted sid nid c) m
    else queued (greeted sid nid c) m

answered :
    (sid nid : ℕ) (m : Msg) (before : List Connection) (c : Connection) (after : List Connection)
    (events : List NetEvent)
    → any (has_fd c.fd) before ≡ false
    → ltb c.evs 8 ≡ true
    → (d : Connection) × ((answer_req c.fd sid nid
          (some m)
          (record { conns = before ++ c ∷ after; events = events })).conns
        ≡ before ++ d ∷ after)
      × ((d.sid ≡ sid) × (d.nid ≡ nid) × (d.state ≡ state_connected))
      × (d.out_buffer ≡ push c.out_buffer m)
      × (waits d ≡ true)
unfolding answer_req set_conn_state set_node_info on_conn
answered sid nid m before c after events none_before small = (
  answered_conn sid nid m c,
  ap (λ cs. (send_sock m c.fd (record { conns = cs; events = events })).0.conns) greets
      ∙ ap (λ r. r.0.conns)
          (send_sock-first m c.fd before (greeted sid nid c) after events none_before refl)
      ∙ leaves,
  fields,
  queue,
  waiting,
)
  where
    greets :
        states state_connected c.fd
          (on_fd c.fd (λ e. record e { sid = sid; nid = nid }) (before ++ c ∷ after))
        ≡ before ++ greeted sid nid c ∷ after
    greets =
        states-on_fd state_connected c.fd _
        ∙ on_fd-on_fd c.fd (λ e. record e { state = state_connected })
            (λ e. record e { sid = sid; nid = nid }) (before ++ c ∷ after) (λ e. refl)
        ∙ on_fd-first (greeted sid nid) before c after none_before

    leaves :
        (sent_net true m before
          (greeted sid nid c)
          after
          events
          (events ++ added c.fd ae_writable ∷ [])).conns
        ≡ before ++ answered_conn sid nid m c ∷ after
    leaves = elim (Bool-cases (bit_and c.evs ae_writable == 0)) [
      | inl z ↦ rw z refl
      | inr z ↦ rw z refl
    ]

    fields :
        ((answered_conn sid nid m c).sid ≡ sid)
        × ((answered_conn sid nid m c).nid ≡ nid)
        × ((answered_conn sid nid m c).state ≡ state_connected)
    fields = elim (Bool-cases (bit_and c.evs ae_writable == 0)) [
      | inl z ↦ rw z (refl, refl, refl)
      | inr z ↦ rw z (refl, refl, refl)
    ]

    queue : (answered_conn sid nid m c).out_buffer ≡ push c.out_buffer m
    queue = elim (Bool-cases (bit_and c.evs ae_writable == 0)) [
      | inl z ↦ rw z refl
      | inr z ↦ rw z refl
    ]

    waiting : waits (answered_conn sid nid m c) ≡ true
    waiting = elim (Bool-cases (bit_and c.evs ae_writable == 0)) [
      | inl z ↦
          rw z
            (and_inv (ltb (armed (greeted sid nid c) m).evs 8) _
              (armed-sound (greeted sid nid c) m small)).1
      | inr z ↦
          rw z (and_inv (ltb c.evs 8) _ (queued-sound (greeted sid nid c) m small (rw z refl))).1
    ]

-- A request that names a service type and a node id comes on a connection whose events are among the
-- three; malloc succeeds and protobuf writes the answer. The connection then has these ids and is
-- connected, the answer is behind the other messages of its queue, as a packet with the command of an
-- answer, and the connection is waited for to be writable. The other connections are as they were.
pub authentication_req-answer :
    (ids : ProtocolIds) (rsp : ℕ → ℕ → MessageLite) (type nid : ℕ) (body : List ℕ)
    (before : List Connection) (c : Connection) (after : List Connection) (events : List NetEvent)
    → any (has_fd c.fd) before ≡ false
    → ltb c.evs 8 ≡ true
    → (rsp type nid).serialize_to_array (rsp type nid).byte_size ≡ some body
    → length body ≡ (rsp type nid).byte_size
    → 1 ≤ (rsp type nid).byte_size
    → (rsp type nid).byte_size + 27 < 2 ^ 16
    → ids.sid_other < 2 ^ 16
    → ids.cid_other_authentication_rsp < 2 ^ 16
    → (n : NetManager) × (d : Connection) × (m : Msg) × (authentication_req ids true rsp
          (some (type, nid))
          c.fd
          (record { conns = before ++ c ∷ after; events = events })
        ≡ ret n)
      × (n.conns ≡ before ++ d ∷ after)
      × ((d.sid ≡ type % 2 ^ 16) × (d.nid ≡ nid) × (d.state ≡ state_connected))
      × (d.out_buffer ≡ push c.out_buffer m)
      × IsPacket m (request_header ids.sid_other ids.cid_other_authentication_rsp) body
      × (waits d ≡ true)
unfolding authentication_req
authentication_req-answer ids rsp type nid body before c after events none_before small s l lo hi f
      g =
    let (m, builds, p) =
      pb_message-IsPacket ids.sid_other ids.cid_other_authentication_rsp (rsp type nid) body s l lo
        hi f g in
    let (d, leaves, named, queue, waiting) =
      answered (type % 2 ^ 16) nid m before c after events none_before small in
    (
      answer_req c.fd (type % 2 ^ 16) nid (some m)
          (record { conns = before ++ c ∷ after; events = events }),
      d,
      m,
      rw builds refl,
      leaves,
      named,
      queue,
      p,
      waiting,
    )
