-- ===== src/Nodes/Request.antt =====
-- The messages that a node sends about itself: `registReq` of src/core/RouterNode.cpp,
-- `ServiceNode::AuthenticationReq` of src/core/ServiceNode.cpp and `NodeMgr::AuthenticationReq` of
-- src/core/NodeMgr.cpp build them in the same five calls. What protobuf makes of the fields is a
-- parameter.
use snframe.Base.{
  ℕ, zero, suc, ◌+◌, ◌^◌, ◌≤◌, ◌<◌, ◌≡◌, refl, ◌∙◌, Bool, true, Option, none, some, List, length,
  if◌then◌else◌, Outcome, ret, ◌>>=◌, arith, ◌==◌,
}
use mathlib.Core.Path.{subst}
use snframe.Memory.{Block, zeros, byte, length-zeros, htons, htonl}
use snframe.Packet.{Msg, MessageLite, bufalloc, set_tag, set_body_head, set_pb, head_len}
use snframe.Packet.Fields.{CommonHeader, header, set_tag-header, set_body_head-header, IsTagged}
use snframe.Packet.Body.{IsPacket, set_pb-IsPacket}

-- The answer of `set_pb` is not looked at. `none`: bufalloc fails.
unfoldable pub pb_message : Bool → ℕ → ℕ → MessageLite → Outcome (Option Msg)
pb_message granted sid cid pb =
    let (msg, done) = bufalloc granted (pb.byte_size + head_len) in
    if done
    then (do
      a ← set_tag msg 0 0
      b ← set_body_head a 1 sid cid 1
      (c, packed) ← set_pb b pb
      ret (some c))
    else ret none

-- The header of such a message but for the length and the check byte.
abbrev pub request_header : ℕ → ℕ → CommonHeader
request_header sid cid = record {
  flags = 0x7eaa;
  conn_server_id = 0;
  socket_id = 0;
  is_router_msg = 0;
  sign = 0x6623;
  ver = 1;
  msg_id = 1;
  service_id = sid;
  cmd_id = cid;
  company_id = 0;
  len = 0;
  check = 0;
}

byte-zeros : (n j : ℕ) → byte (zeros n) j ≡ 0
byte-zeros zero j = refl
byte-zeros (suc n) zero = refl
byte-zeros (suc n) (suc j) = byte-zeros n j

zero_or : (v : ℕ) → (if v == 0 then 0 else v) ≡ v
zero_or v = ground arith

-- What `set_tag` and `set_body_head` make of a block of zeros.
header-request :
    (n sid cid : ℕ) (ys zs : Block)
    → header ys ≡ record (header (zeros n)) { flags = 0x7eaa; conn_server_id = 0; socket_id = 0 }
    → header zs ≡ record (header ys) {
      sign = 0x6623;
      ver = if 1 == 0 then (header ys).ver else 1;
      msg_id = if 1 == 0 then (header ys).msg_id else 1;
      service_id = if sid == 0 then (header ys).service_id else sid;
      cmd_id = if cid == 0 then (header ys).cmd_id else cid;
    }
    → header zs ≡ request_header sid cid
header-request n sid cid ys zs e f =
    rw (f, e) (unfold header htons htonl in simp (byte-zeros, zero_or))

pub pb_message-IsTagged :
    (sid cid : ℕ) (pb : MessageLite) (body : List ℕ)
    → pb.serialize_to_array pb.byte_size ≡ some body
    → length body ≡ pb.byte_size
    → 1 ≤ pb.byte_size
    → pb.byte_size + 27 < 2 ^ 16
    → sid < 2 ^ 16
    → cid < 2 ^ 16
    → (m : Msg) × (pb_message true sid cid pb ≡ ret (some m))
      × (p : IsPacket m (request_header sid cid) body) × IsTagged p.block
unfolding pb_message bufalloc
pb_message-IsTagged sid cid pb body s l lo hi f g =
    let fresh : Block = zeros (pb.byte_size + 27) in
    let new : Msg = record { m_data = some fresh; m_len = 0; m_alloc = pb.byte_size + 27 } in
    let room : length fresh ≡ pb.byte_size + 27 = length-zeros (pb.byte_size + 27) in
    let (ys, tags, tag_head, ys_size, _, tag) =
      set_tag-header new fresh 0 0 refl (omega arith) (omega arith) (omega arith) in
    let (zs, heads, body_head, zs_size, _, same) =
      set_body_head-header (record new { m_data = some ys }) ys 1 sid cid 1 refl (omega arith)
        (omega arith) f g in
    let (m, packs, p, kept) =
      set_pb-IsPacket (record new { m_data = some zs }) zs pb body refl s l lo hi (omega arith) in
    let (q, tagged) =
      subst (λ h. (q : IsPacket m h body) × IsTagged q.block)
        (header-request (pb.byte_size + 27) sid cid ys zs tag_head body_head)
        (p, (kept.0 ∙ same.0 ∙ tag.0, kept.1 ∙ same.1 ∙ tag.1)) in
    (m, rw (tags, ◌>>=◌, heads, ◌>>=◌, packs) refl, q, tagged)

-- When malloc succeeds and protobuf writes as many bytes as it announced, 1 to 65508: the message is
-- a packet with the tag, the version, the number 1, the service and the command id and, as its body,
-- these bytes.
pub pb_message-IsPacket :
    (sid cid : ℕ) (pb : MessageLite) (body : List ℕ)
    → pb.serialize_to_array pb.byte_size ≡ some body
    → length body ≡ pb.byte_size
    → 1 ≤ pb.byte_size
    → pb.byte_size + 27 < 2 ^ 16
    → sid < 2 ^ 16
    → cid < 2 ^ 16
    → (m : Msg) × (pb_message true sid cid pb ≡ ret (some m))
      × IsPacket m (request_header sid cid) body
pb_message-IsPacket sid cid pb body s l lo hi f g =
    let (m, runs, p, tag) = pb_message-IsTagged sid cid pb body s l lo hi f g in (m, runs, p)
