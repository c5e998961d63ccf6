-- ===== src/Frame/Join.antt =====
-- The rounds of `TcpServer::parse` that go on with a packet of which a part has arrived, as steps of
-- `scan` over that part and the bytes that wait.
use snframe.Base.{
  ℕ, suc, ◌+◌, ◌-◌, ◌≤◌, ◌<◌, ◌≡◌, ◌∙◌, true, List, ◌++◌, length, take, length-take, length-append,
  take-append_add, drop-append_add, get_or-append_left, get_or-take, get_or-append_left,
  get_or-take, Outcome, ret, ◌>>=◌, arith,
}
use snframe.Memory.{byte}
use snframe.Packet.{Msg}
use snframe.Frame.{Loop}
use snframe.Frame.Scan.{
  packet, packet_of, tagged, announced, front, scan, front-packet, front-part, scan-packet,
  scan-stop,
}
use snframe.Frame.Window.{window, length-window, drop-window, take-window}
use snframe.Frame.Steps.{waiting}
use snframe.Frame.Partial.{Partial, announced-cong}
use snframe.Frame.States.{pending-part}
use snframe.Frame.Refine.{IsLoop, pending}

module _ {ℓ} {W : Type ℓ} (deliver : Msg → W → Outcome W) (s : Loop W) (h : IsLoop s)
    (p : Partial s.frame) where
  inside : s.pos + s.frame.buf_len ≤ length s.frame.buf
  inside = omega (arith, h.inside, h.full)

  measured : length (waiting s) ≡ s.frame.buf_len
  measured = length-window s.frame.buf s.pos s.frame.buf_len inside

  -- The bytes that are copied already.
  abbrev pub old : List ℕ
  old = take s.frame.pkt.m_len p.block

  length-old : length old ≡ s.frame.pkt.m_len
  length-old = omega (arith, length-take s.frame.pkt.m_len p.block, p.whole)

  pub joined : pending s ≡ old ++ waiting s
  joined = pending-part s p.block p.held p.missing

  pub length-joined : length (old ++ waiting s) ≡ s.frame.pkt.m_len + s.frame.buf_len
  length-joined = omega (arith, length-append old (waiting s), length-old, measured)

  byte-joined : (j : ℕ) → j < 27 → byte (old ++ waiting s) j ≡ byte p.block j
  byte-joined j k =
      get_or-append_left old (waiting s) j 0 (omega (arith, length-old, p.some_header))
      ∙ get_or-take p.block s.frame.pkt.m_len j 0 (omega (arith, p.some_header))

  tagged-joined : tagged (old ++ waiting s) 0 ≡ true
  tagged-joined = rw (byte-joined 0 (omega arith), byte-joined (0 + 1) (omega arith)) p.tag

  announced-joined : announced (old ++ waiting s) ≡ s.frame.pkt.m_len + s.frame.less_pkt_len
  announced-joined =
      announced-cong (old ++ waiting s) p.block (byte-joined 24 (omega arith))
        (byte-joined (24 + 1) (omega arith))
      ∙ p.size
      ∙ p.whole

  -- Too few bytes for the packet: `scan` keeps them all.
  pub scan-joined_stop :
      (m : ℕ)
      → s.frame.buf_len < s.frame.less_pkt_len
      → scan deliver (suc m) (pending s) s.world ≡ ret (pending s, s.world)
  scan-joined_stop m short = rw joined (
      scan-stop deliver m (old ++ waiting s) s.world _ (
        front-part (old ++ waiting s) (omega (arith, length-joined, p.some_header)) tagged-joined
          (omega (arith, length-joined, announced-joined))))

  -- Enough bytes: `scan` takes the packet and goes on behind it.
  pub scan-joined_packet :
      (m : ℕ)
      → s.frame.less_pkt_len ≤ s.frame.buf_len
      → scan deliver (suc m) (pending s) s.world ≡ (
          deliver (packet_of (old ++ window s.frame.buf s.pos s.frame.less_pkt_len)) s.world
          >>= scan deliver m (
              window s.frame.buf
                (s.pos + s.frame.less_pkt_len)
                (s.frame.buf_len - s.frame.less_pkt_len)))
  scan-joined_packet m enough =
      rw joined (scan-packet deliver m (old ++ waiting s) s.world _ _ seen)
    where
      at_end : announced (old ++ waiting s) ≡ length old + s.frame.less_pkt_len
      at_end = omega (arith, announced-joined, length-old)

      seen :
          front (old ++ waiting s)
          ≡ packet (old ++ window s.frame.buf s.pos s.frame.less_pkt_len) (
              window s.frame.buf
                (s.pos + s.frame.less_pkt_len)
                (s.frame.buf_len - s.frame.less_pkt_len))
      seen =
          rw
            (
              take-append_add old (waiting s) _ s.frame.less_pkt_len at_end,
              drop-append_add old (waiting s) _ s.frame.less_pkt_len at_end,
              take-window s.frame.buf s.pos s.frame.buf_len inside s.frame.less_pkt_len enough,
              drop-window s.frame.buf s.pos s.frame.buf_len inside s.frame.less_pkt_len enough,
            )
            at
            (front-packet (old ++ waiting s) (omega (arith, length-joined, p.some_header))
              tagged-joined (omega (arith, length-joined, announced-joined)))
