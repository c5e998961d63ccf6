-- ===== src/Sender/Arrives.antt =====
-- From `ServiceNode::AuthenticationReq` of src/core/ServiceNode.cpp, through `sendBlock` of
-- src/core/Sender.cpp, to `TcpServer::parse` of src/core/TcpServer.cpp at the other end.
use mathlib.Core.Path.{subst}
use snframe.Base.{
  ℕ, ◌+◌, ◌^◌, ◌≤◌, ◌<◌, ◌≡◌, refl, sym, ap, ◌∙◌, true, ◌||◌, some, List, [], length, take, ◌==◌,
  if◌then◌else◌, Outcome, ret, ◌>>=◌, arith,
}
use mathlib.Core.List.{append-nil}
use snframe.Protocol.{ProtocolIds}
use snframe.Packet.{Msg, MessageLite, bytes}
use snframe.Frame.{recv_buf_len, dispatch, parse}
use snframe.Frame.Delivery.{kept}
use snframe.Frame.Scan.{packet_of}
use snframe.Frame.Stream.{with_tail}
use snframe.Frame.Sent.{sent, length-sent, parse-sent_tagged}
use snframe.Frame.Arrived.{arrived, arrived-IsFrame, window-arrived}
use snframe.Nodes.Request.{request_header, pb_message-IsTagged}
use snframe.Conn.{Send}
use snframe.Sender.{send_block, authentication_request}
use snframe.Sender.Wire.{progress, send_block-all}

-- The request fits into the buffer of the receiver, malloc succeeds at both ends, and the kernel takes
-- a byte at least as often as the request has bytes. Then the request goes out whole, and where its
-- bytes arrive at a connection with nothing else, `parse` hands exactly these bytes to
-- `parseCommonProto`, and keeps nothing.
pub authentication_request-parse :
    {W : Type 0} (ids : ProtocolIds) (common handler : Msg → W → Outcome W) (req : MessageLite)
    (body : List ℕ) (answers : List Send) (w : W)
    → req.serialize_to_array req.byte_size ≡ some body
    → length body ≡ req.byte_size
    → 1 ≤ req.byte_size
    → req.byte_size + 27 ≤ recv_buf_len
    → ids.sid_other < 2 ^ 16
    → ids.cid_other_authentication_req < 2 ^ 16
    → req.byte_size + 27 ≤ progress answers
    → (wire : List ℕ) × (authentication_request ids true req answers ≡ ret (some (wire, true)))
      × (length wire ≡ req.byte_size + 27)
      × ((parse (dispatch ids common handler) (arrived wire) [] w >>= λ t.
            ret (kept t.frame, t.world))
          ≡ (common (packet_of wire) w >>= with_tail []))
unfolding authentication_request
authentication_request-parse {W} ids common handler req body answers w s l lo hi f g p =
    let (m, made, q, tag) =
      pb_message-IsTagged ids.sid_other ids.cid_other_authentication_req req body s l lo
        (omega arith) f g in
    let wire : List ℕ = sent m q.block in
    let size : length wire ≡ req.byte_size + 27 = omega (
      arith,
      length-sent m (request_header ids.sid_other ids.cid_other_authentication_req) body q,
    ) in
    let held : bytes m.m_data ≡ q.block = ap bytes q.held in
    let whole : send_block answers m ≡ ret (wire, true) =
      send_block-all answers m (subst (λ xs. m.m_len ≤ length xs) (sym held) q.fits)
        (omega (arith, q.size))
      ∙ ap (λ xs. ret (take m.m_len xs, true)) held in
    (
      wire,
      rw (made, ◌>>=◌, whole) refl,
      size,
      parse-sent_tagged m (request_header ids.sid_other ids.cid_other_authentication_req) body q ids
            common handler (arrived wire) w tag (omega arith)
            (arrived-IsFrame wire (omega (arith, size))) refl
            (window-arrived wire (omega (arith, size)) ∙ sym (append-nil wire))
          ∙ ap (λ o. o >>= with_tail []) (to_common ids.sid_router ids.sid_other _ _),
    )
  where
    to_common : (r o : ℕ) (x y : Outcome W) → (if o == r || o == o then x else y) ≡ x
    to_common r o x y = let own : (o == r || o == o) ≡ true = ground arith in rw own refl
