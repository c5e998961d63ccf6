-- ===== src/Sender.antt =====
-- `Sender` of src/core/Sender.cpp, and the functions of src/core/Service.cpp that the application
-- calls. The answers of the kernel are a list, as in Conn.
pub mod Wire
pub mod Arrives
mod Tests
use snframe.Base.{
  ℕ, ◌+◌, ◌-◌, min, Bool, true, false, Option, none, some, List, [], ◌∷◌, ◌++◌, ◌==◌, if◌then◌else◌,
  Outcome, ret, stuck, ◌>>=◌,
}
use snframe.Memory.{Block, slice}
use snframe.Protocol.{ProtocolIds}
use snframe.Packet.{Msg, MessageLite, bytes}
use snframe.Packet.Header.{get_srv_id}
use snframe.Conn.{Send, send_failed, send_again, sends}
use snframe.Net.{NetManager, send_sock, send_node, send_db, send_state}
use snframe.Nodes.Request.{pb_message}

-- The loop of `sendBlock` over `pos` and `sendLen`: what the kernel has taken, and whether that is
-- all. `stuck`: there is no further answer, and the loop still asks the kernel.
unfoldable pub send_from : List Send → Block → ℕ → ℕ → List ℕ → Outcome (List ℕ × Bool)
send_from [] xs pos send_len wire = if send_len == 0 then ret (wire, true) else stuck
send_from (send_failed ∷ answers) xs pos send_len wire = ret (wire, send_len == 0)
send_from (send_again ∷ answers) xs pos send_len wire =
    let rest = send_from answers xs pos send_len wire in
    if send_len == 0 then ret (wire, true) else rest
send_from (sends k ∷ answers) xs pos send_len wire =
    let n = min k send_len in
    let rest =
      slice xs pos n >>= λ out. send_from answers xs (pos + n) (send_len - n) (wire ++ out) in
    if send_len == 0 then ret (wire, true) else if n == 0 then ret (wire, false) else rest

unfoldable pub send_block : List Send → Msg → Outcome (List ℕ × Bool)
send_block answers msg = send_from answers (bytes msg.m_data) 0 msg.m_len []

-- `ServiceNode::AuthenticationReq`: what goes out, unless malloc fails. Its answer is not used.
unfoldable pub authentication_request :
    ProtocolIds → Bool → MessageLite → List Send → Outcome (Option (List ℕ × Bool))
authentication_request ids granted req answers =
    pb_message granted ids.sid_other ids.cid_other_authentication_req req >>= λ made. elim made [
      | none ↦ ret none
      | some msg ↦ send_block answers msg >>= λ r. ret (some r)
    ]

-- `sendConn` of src/core/Service.cpp: to the connection server that the message names.
unfoldable pub send_conn : Msg → NetManager → Outcome (NetManager × Bool)
send_conn msg n = get_srv_id msg >>= λ nid. ret (send_node msg nid n)
