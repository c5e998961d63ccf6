-- ===== src/Frame.antt =====
-- `TcpServer::parse` of src/core/TcpServer.cpp: packets are cut out of the bytes that a connection has
-- received. Of the connection it reads and writes `buf`, `buf_len`, `pkt` and `less_pkt_len`, the
-- record `Frame`; what a packet does to the rest of the process is the parameter `deliver`.
-- The answers of malloc are a list, one for each call; when it is at an end malloc succeeds. A malloc
-- that refuses for ever is not such a list: see Frame/Refused.
pub mod Scan
pub mod Window
pub mod Steps
pub mod Partial
pub mod Refine
pub mod States
pub mod Simulate
pub mod Join
pub mod Parse
pub mod Delivery
pub mod Stream
pub mod Search
pub mod Progress
pub mod Refused
pub mod Sent
pub mod Safe
pub mod Arrived
pub mod Resync
mod Tests
use snframe.Base.{
  ℕ, zero, suc, ◌+◌, ◌-◌, ◌*◌, ◌≡◌, Bool, true, false, ◌&&◌, ◌||◌, Option, none, some, List, [],
  ◌∷◌, length, ltb, leb, ◌==◌, if◌then◌else◌, Outcome, ret, fault, stuck, ◌>>=◌,
}
use snframe.Memory.{Block, zeros, length-zeros, peek8, peek16, poke, slice, htons}
use snframe.Packet.{Msg, null_msg, assign, bufalloc, bytes, head_len, check}
use snframe.Packet.Header.{get_sid}
use snframe.Protocol.{ProtocolIds}

abbrev pub recv_buf_len : ℕ
recv_buf_len = 16 * 1024

pub blank_buf : Block
blank_buf = zeros recv_buf_len

pub length-blank_buf : length blank_buf ≡ recv_buf_len
unfolding blank_buf
length-blank_buf = length-zeros recv_buf_len

pub record Frame : Type 0 where
  pub buf : Block
  pub buf_len : ℕ
  pub pkt : Msg
  pub less_pkt_len : ℕ

-- `Connection::clear`.
unfoldable pub clear : Frame → Frame
clear f = record { buf = blank_buf; buf_len = 0; pkt = null_msg; less_pkt_len = 0 }

-- The next answer of malloc.
abbrev pub next_answer : List Bool → Bool × List Bool
next_answer [] = (true, [])
next_answer (a ∷ as') = (a, as')

-- `parseCommonProto` or `handler`, for a packet that passes `check`; any other packet is dropped.
unfoldable pub dispatch {ℓ} :
    {W : Type ℓ} → ProtocolIds → (Msg → W → Outcome W) → (Msg → W → Outcome W) → Msg → W → Outcome W
dispatch ids common handler msg w = check msg >>= λ passes.
    if passes
    then (get_sid msg >>= λ sid.
        if sid == ids.sid_router || sid == ids.sid_other then common msg w else handler msg w)
    else ret w

-- Both tag bytes stand at `i`. The second is read only if the first does.
unfoldable pub tag_at : Block → ℕ → Outcome Bool
tag_at buf i = peek8 buf i >>= λ a.
    if a == 0x7e then peek8 buf (i + 1) >>= (λ b. ret (b == 0xaa)) else ret false

-- `for (i = 0; i < conn->buf_len - 1; ++i)`, with `n` rounds left: where it stops, and whether by the
-- tag.
unfoldable pub find_tag : Block → ℕ → ℕ → ℕ → Outcome (ℕ × Bool)
find_tag buf pos i zero = ret (i, false)
find_tag buf pos i (suc n) =
    let more = find_tag buf pos (i + 1) n in
    tag_at buf (pos + i) >>= λ found. if found then ret (i, true) else more

-- The variables of the loop: `pos` is `data - conn->buf`.
pub record Loop {ℓ} (W : Type ℓ) : Type ℓ where
  pub frame : Frame
  pub pos : ℕ
  pub answers : List Bool
  pub world : W

-- How a round of the loop ends.
pub data Round {ℓ} (W : Type ℓ) : Type ℓ where
  goes_on : Loop W → Round W
  breaks : Loop W → Round W

module _ {ℓ} {W : Type ℓ} where
  -- A part of the packet is there: it is moved to `pkt`, and the loop ends.
  unfoldable pub part_packet : Loop W → ℕ → Outcome (Round W)
  part_packet s pkt_len =
      let (granted, rest) = next_answer s.answers in
      let (msg, done) = bufalloc granted pkt_len in
      if done
      then (do
        src ← slice s.frame.buf s.pos s.frame.buf_len
        block ← poke (bytes msg.m_data) 0 src
        ret (
            breaks (record s {
              frame = record (s.frame) {
                buf_len = 0;
                pkt = record msg { m_data = some block; m_len = s.frame.buf_len };
                less_pkt_len = pkt_len - s.frame.buf_len;
              };
              answers = rest;
            })))
      else ret (goes_on (record s { frame = record (s.frame) { pkt = msg }; answers = rest }))

  -- No tag at `pos`: the bytes before the next one are passed over. After the search the code
  -- compares the index with the length that is left, also where the tag was found.
  unfoldable pub resync : Loop W → Outcome (Round W)
  resync s = find_tag s.frame.buf s.pos 0 (s.frame.buf_len - 1) >>= λ (i, found).
      let left = (if found then s.frame.buf_len - i else s.frame.buf_len) in
      if i == left - 1
      then ret (breaks (record s { frame = clear s.frame }))
      else ret (goes_on (record s { frame = record (s.frame) { buf_len = left }; pos = s.pos + i }))

  -- Some of them are there. `data` stays where it is.
  unfoldable pub more_packet : Loop W → Outcome (Round W)
  more_packet s = do
    src ← slice s.frame.buf s.pos s.frame.buf_len
    block ← poke (bytes s.frame.pkt.m_data) s.frame.pkt.m_len src
    ret (
        goes_on (record s {
          frame = record (s.frame) {
            buf_len = 0;
            pkt = record (s.frame.pkt) {
              m_data = some block;
              m_len = s.frame.pkt.m_len + s.frame.buf_len;
            };
            less_pkt_len = s.frame.less_pkt_len - s.frame.buf_len;
          };
        }))

  -- What is left of the bytes moves to the front of the buffer.
  unfoldable pub compact : Loop W → Outcome (Loop W)
  compact s = if s.frame.buf_len == 0 || s.pos == 0 then ret s else (do
    src ← slice s.frame.buf s.pos s.frame.buf_len
    block ← poke s.frame.buf 0 src
    ret (record s { frame = record (s.frame) { buf = block } }))

module _ {ℓ} {W : Type ℓ} (deliver : Msg → W → Outcome W) where
  -- The whole packet is there: it is copied and delivered. Where malloc fails nothing has changed.
  unfoldable pub whole_packet : Loop W → ℕ → Outcome (Round W)
  whole_packet s pkt_len =
      let (granted, rest) = next_answer s.answers in
      let (msg, done) = bufalloc granted pkt_len in
      if done
      then (do
        src ← slice s.frame.buf s.pos pkt_len
        block ← poke (bytes msg.m_data) 0 src
        w ← deliver (record msg { m_data = some block; m_len = pkt_len }) s.world
        ret (
            goes_on (record {
              frame = record (s.frame) { buf_len = s.frame.buf_len - pkt_len };
              pos = s.pos + pkt_len;
              answers = rest;
              world = w;
            })))
      else ret (goes_on (record s { answers = rest }))

  -- The tag stands at `pos`. The length field is the last two bytes of the header before the check
  -- byte.
  unfoldable pub packet : Loop W → Outcome (Round W)
  packet s = peek16 s.frame.buf (s.pos + 24) >>= λ w.
      let pkt_len = htons w + head_len in
      if leb pkt_len s.frame.buf_len then whole_packet s pkt_len else part_packet s pkt_len

  -- `pkt` waits for `less_pkt_len` bytes more, and all of them are there.
  unfoldable pub rest_packet : Loop W → Outcome (Round W)
  rest_packet s = do
    src ← slice s.frame.buf s.pos s.frame.less_pkt_len
    block ← poke (bytes s.frame.pkt.m_data) s.frame.pkt.m_len src
    let (msg, _) = assign (record (s.frame.pkt) {
      m_data = some block;
      m_len = s.frame.pkt.m_len + s.frame.less_pkt_len;
    })
    w ← deliver msg s.world
    ret (
        goes_on (record s {
          frame = record (s.frame) {
            buf_len = s.frame.buf_len - s.frame.less_pkt_len;
            pkt = null_msg;
            less_pkt_len = 0;
          };
          pos = s.pos + s.frame.less_pkt_len;
          world = w;
        }))

  unfoldable pub round : Loop W → Outcome (Round W)
  round s =
      if s.frame.less_pkt_len == 0
      then (tag_at s.frame.buf s.pos >>= λ tagged. if tagged then packet s else resync s)
      else if leb s.frame.less_pkt_len s.frame.buf_len
      then rest_packet s
      else more_packet s

  -- `while (conn->buf_len >= HEAD_LEN)`, on fuel.
  unfoldable pub loop : ℕ → Loop W → Outcome (Loop W)
  loop zero s = stuck
  loop (suc fuel) s =
      let next = round s >>= elim [ goes_on t ↦ loop fuel t | breaks t ↦ ret t ] in
      if ltb s.frame.buf_len head_len then ret s else next

  -- Each round takes a byte at least, or a refusal of malloc: the fuel is enough for these answers.
  unfoldable pub parse : Frame → List Bool → W → Outcome (Loop W)
  parse f answers w =
      loop (f.buf_len + length answers + 1)
        (record { frame = f; pos = 0; answers = answers; world = w })
      >>= compact
