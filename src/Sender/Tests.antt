-- ===== src/Sender/Tests.antt =====
-- Runs of src/core/Sender.cpp.
use snframe.Base.{
  ℕ, ◌≡◌, true, refl, some, List, [], ◌∷◌, length, replicate, Outcome, ret, ◌>>=◌, arith,
}
use snframe.Protocol.{ProtocolIds}
use snframe.Frame.{dispatch, parse}
use snframe.Frame.Delivery.{kept}
use snframe.Frame.Scan.{packet_of}
use snframe.Frame.Stream.{with_tail}
use snframe.Frame.Arrived.{arrived}
use snframe.Sender.Arrives.{authentication_request-parse}
use snframe.Packet.{Msg, MessageLite, bytes}
use snframe.Conn.{Send, send_again, sends, send_failed}
use snframe.Sender.{send_block, authentication_request}
use snframe.Sender.Wire.{Sent, send_block-Sent, send_block-all}

abbrev three : Msg
three = record { m_data = some (1 ∷ 2 ∷ 3 ∷ []); m_len = 3; m_alloc = 3 }

abbrev broken_off : List Send
broken_off = sends 2 ∷ send_again ∷ send_failed ∷ []

send_block-Sent_example : Sent [] (1 ∷ 2 ∷ 3 ∷ []) (send_block broken_off three)
send_block-Sent_example = send_block-Sent broken_off three (omega arith)

abbrev in_pieces : List Send
in_pieces = sends 1 ∷ send_again ∷ sends 1 ∷ send_again ∷ sends 7 ∷ []

send_block-all_example : send_block in_pieces three ≡ ret (1 ∷ 2 ∷ 3 ∷ [], true)
send_block-all_example = send_block-all in_pieces three (omega arith) (omega arith)

-- A request with the body 5; the kernel takes up to three bytes at a time.
abbrev ids : ProtocolIds
ids = record {
  sid_other = 1;
  sid_router = 2;
  sid_conn = 3;
  sid_db_proxy = 4;
  sid_user_state = 5;
  cid_other_authentication_req = 1;
  cid_other_authentication_rsp = 2;
  cid_other_heartbeat = 3;
  cid_router_client_register_req = 4;
  cid_router_client_register_rsp = 5;
  cid_router_push_server_status = 6;
}

abbrev five : MessageLite
five = record { byte_size = 1; serialize_to_array = λ n. some (5 ∷ []) }

abbrev in_threes : List Send
in_threes = replicate 28 (sends 3)

-- The packets that were handed on, the last one first.
abbrev log : Msg → List (List ℕ) → Outcome (List (List ℕ))
log m w = ret (bytes m.m_data ∷ w)

authentication_request-parse_example :
    (wire : List ℕ) × (authentication_request ids true five in_threes ≡ ret (some (wire, true)))
    × (length wire ≡ 28)
    × ((parse (dispatch ids log log) (arrived wire) [] [] >>= λ t. ret (kept t.frame, t.world))
        ≡ (log (packet_of wire) [] >>= with_tail []))
authentication_request-parse_example =
    authentication_request-parse ids log log five (5 ∷ []) in_threes [] refl refl (omega arith)
      (omega arith) (omega arith) (omega arith) (omega arith)
