-- ===== src/Frame/Sent.antt =====
-- From the writers of src/base/PbBuf.cpp to `TcpServer::parse` of src/core/TcpServer.cpp: the bytes
-- of a message as Connection::write sends them, cut out again by the receiver.
use snframe.Base.{
  ℕ, ◌+◌, ◌-◌, ◌≤◌, ◌<◌, ◌≡◌, refl, sym, ap, ◌∙◌, true, List, [], ◌∷◌, ◌++◌, length, take,
  get_or-take, length-take, ◌==◌, ◌||◌, if◌then◌else◌, Outcome, ret, ◌>>=◌, bind_assoc, arith,
}
use snframe.Memory.{peek16-u16, byte, Block, u16, htons}
use snframe.Packet.{Msg, check}
use snframe.Packet.Fields.{CommonHeader, header, IsTagged}
use snframe.Packet.Seal.{checksum, check_lem, xor_all-cong}
use snframe.Packet.Readers.{IsBytes}
use snframe.Packet.Body.{IsPacket}
use snframe.Frame.Scan.{packet_of, announced}
use snframe.Frame.Stream.{IsWhole, deliver_all, all_nil, all_cons, parse-stream, with_tail}
use snframe.Frame.{Frame, dispatch, parse}
use snframe.Frame.Delivery.{IsFrame, kept}
use snframe.Packet.Header.{get_sid}
use snframe.Protocol.{ProtocolIds}

-- The bytes of a message on the wire.
abbrev pub sent : Msg → Block → List ℕ
sent m xs = take m.m_len xs

module _ (m : Msg) (h : CommonHeader) (body : List ℕ) (p : IsPacket m h body) where
  pub length-sent : length (sent m p.block) ≡ 27 + length body
  length-sent = omega (arith, length-take m.m_len p.block, p.size, p.fits)

  byte-sent : (j : ℕ) → j < 27 + length body → byte (sent m p.block) j ≡ byte p.block j
  byte-sent j k = get_or-take p.block m.m_len j 0 (omega (arith, p.size))

  len-sent : htons (u16 p.block 24) ≡ length body
  unfolding header
  len-sent = ap (λ g. g.len) p.head

  pub sent-IsWhole_tagged : IsTagged p.block → IsWhole (sent m p.block)
  unfolding announced header htons
  sent-IsWhole_tagged (first, second) = record {
    tag = rw (byte-sent 0 (omega arith), byte-sent (0 + 1) (omega arith), first, second) refl;
    size =
        rw (byte-sent 24 (omega arith), byte-sent (24 + 1) (omega arith), len-sent)
          (omega (arith, length-sent));
  }

  -- The bytes of a packet whose header carries the tag are a whole packet for the receiver.
  pub block-IsTagged : h.flags ≡ 0x7eaa → IsBytes p.block → IsTagged p.block
  unfolding header htons
  block-IsTagged tag b = (omega (arith, flags, b 0, b 1), omega (arith, flags, b 0, b 1))
    where
      flags : htons (u16 p.block 0) ≡ 0x7eaa
      flags = ap (λ g. g.flags) p.head ∙ tag

  pub sent-IsWhole : h.flags ≡ 0x7eaa → IsBytes p.block → IsWhole (sent m p.block)
  sent-IsWhole tag b = sent-IsWhole_tagged (block-IsTagged tag b)

  checksum-sent :
      1 ≤ length body → checksum (sent m p.block) (length body) ≡ checksum p.block (length body)
  unfolding checksum
  checksum-sent some_body =
      rw (byte-sent 24 (omega arith), byte-sent 25 (omega arith), byte-sent 27 (omega arith))
        (xor_all-cong _ (sent m p.block) p.block 28 (length body - 1)
          (λ j a b. byte-sent j (omega arith)))

  -- It passes `check` there as it did here.
  pub sent-passes : 1 ≤ length body → check (packet_of (sent m p.block)) ≡ ret true
  sent-passes some_body =
      rw
        (
          check_lem (packet_of (sent m p.block)) (sent m p.block) refl (omega (arith, length-sent))
              (omega arith),
          length-sent,
          there,
          byte-sent 26 (omega arith),
          checksum-sent some_body,
        )
        (rw (check_lem m p.block p.held (omega (arith, p.size)) p.fits, p.size, there) at p.passes)
    where
      there : 27 + length body - 27 ≡ length body
      there = omega arith

  sid-sent : get_sid (packet_of (sent m p.block)) ≡ ret h.service_id
  unfolding get_sid header
  sid-sent =
      rw
        (
          peek16-u16 (sent m p.block) 16 (omega (arith, length-sent)),
          ◌>>=◌,
          byte-sent 16 (omega arith),
          byte-sent (16 + 1) (omega arith),
        )
        (ap ret (ap (λ g. g.service_id) p.head))

  module _ {ℓ} {W : Type ℓ} (ids : ProtocolIds) (common handler : Msg → W → Outcome W) where
    dispatch-sent :
        (w : W)
        → 1 ≤ length body
        → dispatch ids common handler (packet_of (sent m p.block)) w ≡ (
            if h.service_id == ids.sid_router || h.service_id == ids.sid_other
            then common (packet_of (sent m p.block)) w
            else handler (packet_of (sent m p.block)) w)
    unfolding dispatch
    dispatch-sent w some_body = rw (sent-passes some_body, ◌>>=◌, sid-sent)

    pub parse-sent_tagged :
        (f : Frame) (w : W)
        → IsTagged p.block
        → 1 ≤ length body
        → IsFrame f
        → f.less_pkt_len ≡ 0
        → kept f ≡ sent m p.block ++ []
        → (parse (dispatch ids common handler) f [] w >>= λ t. ret (kept t.frame, t.world)) ≡ (
            (if h.service_id == ids.sid_router || h.service_id == ids.sid_other
              then common (packet_of (sent m p.block)) w
              else handler (packet_of (sent m p.block)) w)
            >>= with_tail [])
    parse-sent_tagged f w tag some_body g idle arrived =
        parse-stream (dispatch ids common handler) f (sent m p.block ∷ []) [] w g idle arrived
          (all_cons (sent m p.block) [] (sent-IsWhole_tagged tag) all_nil) (omega arith)
        ∙ rw (dispatch-sent w some_body)
            (sym (bind_assoc _ (deliver_all (dispatch ids common handler) []) (with_tail [])))

    -- A packet with a tag and a body, as `set_data` and `set_pb` make it, arrives alone at a connection
    -- with nothing half copied, and malloc does not fail: `parse` hands its very bytes to
    -- `parseCommonProto` or to the handler, by its service id, and keeps nothing.
    pub parse-sent :
        (f : Frame) (w : W)
        → h.flags ≡ 0x7eaa
        → IsBytes p.block
        → 1 ≤ length body
        → IsFrame f
        → f.less_pkt_len ≡ 0
        → kept f ≡ sent m p.block ++ []
        → (parse (dispatch ids common handler) f [] w >>= λ t. ret (kept t.frame, t.world)) ≡ (
            (if h.service_id == ids.sid_router || h.service_id == ids.sid_other
              then common (packet_of (sent m p.block)) w
              else handler (packet_of (sent m p.block)) w)
            >>= with_tail [])
    parse-sent f w tag b some_body g idle arrived =
        parse-sent_tagged f w (block-IsTagged tag b) some_body g idle arrived
