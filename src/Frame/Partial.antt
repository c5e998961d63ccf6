-- ===== src/Frame/Partial.antt =====
-- A packet that has arrived in part: what `pkt` and `less_pkt_len` hold between two rounds of
-- `TcpServer::parse`, and the rounds that go on with it.
use snframe.Base.{
  ℕ, ◌+◌, ◌-◌, ◌≤◌, ◌<◌, ◌≡◌, refl, sym, ◌∙◌, inl, true, some, List, ◌++◌, length, take,
  length-take, take-length, length-append, Outcome, ret, ◌>>=◌, arith,
}
use snframe.Memory.{
  Block, byte, put, poke-put, length-put, byte-put_other, byte-put_self, zeros, length-zeros,
}
use snframe.Packet.{Msg, null_msg, assign}
use snframe.Frame.{Frame, Loop, goes_on, rest_packet, more_packet, round}
use snframe.Frame.Scan.{packet_of, tagged, announced}
use snframe.Frame.Window.{window, length-window, slice-window, take-put}
use snframe.Frame.Steps.{waiting, parted}

-- `pkt` holds the first `m_len` bytes of a packet, its header at least, in a block of the announced
-- size, and `less_pkt_len` counts the bytes that are missing.
pub record Partial (f : Frame) : Type 0 where
  pub block : Block
  pub held : f.pkt.m_data ≡ some block
  pub whole : length block ≡ f.pkt.m_len + f.less_pkt_len
  pub exact : f.pkt.m_alloc ≡ length block
  pub some_header : 27 ≤ f.pkt.m_len
  pub missing : 1 ≤ f.less_pkt_len
  pub tag : tagged block 0 ≡ true
  pub size : announced block ≡ length block

-- A store behind the header leaves tag and size.
tagged-put : (xs : Block) (i : ℕ) (ys : List ℕ) → 27 ≤ i → tagged (put xs i ys) 0 ≡ tagged xs 0
tagged-put xs i ys h = rw (
  byte-put_other xs i ys 0 (inl (omega arith)),
  byte-put_other xs i ys (0 + 1) (inl (omega arith)),
)

pub announced-cong :
    (ys xs : Block)
    → byte ys 24 ≡ byte xs 24
    → byte ys (24 + 1) ≡ byte xs (24 + 1)
    → announced ys ≡ announced xs
unfolding announced
announced-cong ys xs e f = rw (e, f)

announced-put : (xs : Block) (i : ℕ) (ys : List ℕ) → 27 ≤ i → announced (put xs i ys) ≡ announced xs
announced-put xs i ys h =
    announced-cong (put xs i ys) xs (byte-put_other xs i ys 24 (inl (omega arith)))
      (byte-put_other xs i ys (24 + 1) (inl (omega arith)))

module _ {ℓ} {W : Type ℓ} where
  -- After the missing bytes.
  abbrev pub completed : Loop W → W → Loop W
  completed s w = record s {
    frame = record (s.frame) {
      buf_len = s.frame.buf_len - s.frame.less_pkt_len;
      pkt = null_msg;
      less_pkt_len = 0;
    };
    pos = s.pos + s.frame.less_pkt_len;
    world = w;
  }

  -- After some of them.
  abbrev pub extended : Loop W → Block → Loop W
  extended s block = record s {
    frame = record (s.frame) {
      buf_len = 0;
      pkt = record (s.frame.pkt) {
        m_data = some block;
        m_len = s.frame.pkt.m_len + s.frame.buf_len;
      };
      less_pkt_len = s.frame.less_pkt_len - s.frame.buf_len;
    };
  }

-- A store that fills a block from `i` on.
put-tail :
    (xs : Block) (i : ℕ) (ys : List ℕ) → length xs ≡ i + length ys → put xs i ys ≡ take i xs ++ ys
put-tail xs i ys h =
    sym (take-length (put xs i ys) (i + length ys) (omega (arith, length-put xs i ys)))
    ∙ take-put xs i ys (omega arith)

module _ {ℓ} {W : Type ℓ} (deliver : Msg → W → Outcome W) (s : Loop W) (p : Partial s.frame)
    (inside : s.pos + s.frame.buf_len ≤ length s.frame.buf) where
  pub rest_packet-runs :
      s.frame.less_pkt_len ≤ s.frame.buf_len
      → rest_packet deliver s ≡ (
          deliver
            (packet_of
              (take s.frame.pkt.m_len p.block ++ window s.frame.buf s.pos s.frame.less_pkt_len))
            s.world
          >>= λ w. ret (goes_on (completed s w)))
  unfolding rest_packet assign
  rest_packet-runs h = rw (
    slice-window s.frame.buf s.pos s.frame.less_pkt_len (omega arith),
    p.held,
    ◌>>=◌,
    poke-put p.block s.frame.pkt.m_len tail (omega (arith, tail_size, p.whole)),
    ◌>>=◌,
    put-tail p.block s.frame.pkt.m_len tail (omega (arith, tail_size, p.whole)),
    total,
    p.exact,
    p.whole,
  )
    where
      tail : List ℕ
      tail = window s.frame.buf s.pos s.frame.less_pkt_len

      tail_size : length tail ≡ s.frame.less_pkt_len
      tail_size = length-window s.frame.buf s.pos s.frame.less_pkt_len (omega arith)

      total :
          length (take s.frame.pkt.m_len p.block ++ tail) ≡ s.frame.pkt.m_len + s.frame.less_pkt_len
      total = omega (
        arith,
        length-append (take s.frame.pkt.m_len p.block) tail,
        length-take s.frame.pkt.m_len p.block,
        p.whole,
        tail_size,
      )

  pub more_packet-runs :
      s.frame.buf_len < s.frame.less_pkt_len
      → more_packet s ≡ ret (goes_on (extended s (put p.block s.frame.pkt.m_len (waiting s))))
  unfolding more_packet
  more_packet-runs h = rw (
    slice-window s.frame.buf s.pos s.frame.buf_len inside,
    p.held,
    ◌>>=◌,
    poke-put p.block s.frame.pkt.m_len (waiting s)
        (omega (arith, p.whole, length-window s.frame.buf s.pos s.frame.buf_len inside)),
  )

  pub extended-Partial :
      s.frame.buf_len < s.frame.less_pkt_len
      → Partial (extended s (put p.block s.frame.pkt.m_len (waiting s))).frame
  extended-Partial h = record {
    block = put p.block s.frame.pkt.m_len (waiting s);
    held = refl;
    whole = omega (arith, length-put p.block s.frame.pkt.m_len (waiting s), p.whole);
    exact = omega (arith, length-put p.block s.frame.pkt.m_len (waiting s), p.exact);
    some_header = omega (arith, p.some_header);
    missing = omega arith;
    tag = tagged-put p.block s.frame.pkt.m_len (waiting s) p.some_header ∙ p.tag;
    size =
        announced-put p.block s.frame.pkt.m_len (waiting s) p.some_header
        ∙ p.size
        ∙ sym (length-put p.block s.frame.pkt.m_len (waiting s));
  }

-- A packet of which `part_packet` has moved the first bytes, its header among them.
pub parted-Partial {ℓ} :
    {W : Type ℓ} (s : Loop W)
    → s.pos + s.frame.buf_len ≤ length s.frame.buf
    → 27 ≤ s.frame.buf_len
    → s.frame.buf_len < announced (waiting s)
    → tagged (waiting s) 0 ≡ true
    → Partial
        (parted s (announced (waiting s)) (put (zeros (announced (waiting s))) 0 (waiting s))).frame
parted-Partial s inside long part tag = record {
  block = put (zeros (announced (waiting s))) 0 (waiting s);
  held = refl;
  whole = omega (arith, length-put (zeros size) 0 (waiting s), length-zeros size);
  exact = omega (arith, length-put (zeros size) 0 (waiting s), length-zeros size);
  some_header = long;
  missing = omega arith;
  tag = rw (moved 0 (omega arith), moved (0 + 1) (omega arith)) tag;
  size =
      announced-cong (put (zeros size) 0 (waiting s)) (waiting s) (moved 24 (omega arith))
        (moved (24 + 1) (omega arith))
      ∙ sym (length-put (zeros size) 0 (waiting s) ∙ length-zeros size);
}
  where
    size : ℕ
    size = announced (waiting s)

    moved :
        (k : ℕ)
        → k < s.frame.buf_len
        → byte (put (zeros (announced (waiting s))) 0 (waiting s)) k ≡ byte (waiting s) k
    moved k h =
        byte-put_self (zeros (announced (waiting s))) 0 (waiting s) k k (omega arith)
          (omega (arith, length-window s.frame.buf s.pos s.frame.buf_len inside))
          (omega (
            arith,
            length-zeros (announced (waiting s)),
            length-window s.frame.buf s.pos s.frame.buf_len inside,
          ))

module _ {ℓ} {W : Type ℓ} (deliver : Msg → W → Outcome W) (s : Loop W) (p : Partial s.frame) where
  pub round-rest : s.frame.less_pkt_len ≤ s.frame.buf_len → round deliver s ≡ rest_packet deliver s
  unfolding round
  round-rest h = ground (arith, p.missing)

  pub round-more : s.frame.buf_len < s.frame.less_pkt_len → round deliver s ≡ more_packet s
  unfolding round
  round-more h = ground (arith, p.missing)
