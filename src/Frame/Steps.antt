-- ===== src/Frame/Steps.antt =====
-- The branches of one round of `TcpServer::parse`, in terms of the bytes that wait.
use snframe.Base.{
  ℕ, ◌+◌, ◌-◌, ◌≤◌, ◌<◌, ◌≡◌, refl, Option-cases, inl, inr, true, false, Option, none, some, List,
  [], length, take, leb, le→leb, lt→leb, ◌==◌, if◌then◌else◌, Outcome, ret, ◌>>=◌, arith,
}
use snframe.Memory.{Block, zeros, length-zeros, put, poke-put}
use snframe.Packet.{Msg, bufalloc}
use snframe.Frame.{
  Loop, Round, goes_on, breaks, clear, tag_at, whole_packet, part_packet, packet, resync, round,
}
use snframe.Frame.Scan.{packet_of, tagged, announced, first_tag}
use snframe.Frame.Window.{
  window, length-window, slice-window, take-window, tag_at-tagged, find_tag-first_tag,
  peek16-window, poke-whole,
}

module _ {ℓ} {W : Type ℓ} where
  -- After a packet of `size` bytes at `pos`.
  abbrev pub taken : Loop W → ℕ → W → Loop W
  taken s size w = record s {
    frame = record (s.frame) { buf_len = s.frame.buf_len - size };
    pos = s.pos + size;
    world = w;
  }

  abbrev pub waiting : Loop W → List ℕ
  waiting s = window s.frame.buf s.pos s.frame.buf_len

  -- All bytes are moved to a new `pkt` of `size` bytes.
  abbrev pub parted : Loop W → ℕ → Block → Loop W
  parted s size block = record s {
    frame = record (s.frame) {
      buf_len = 0;
      pkt = record { m_data = some block; m_len = s.frame.buf_len; m_alloc = size };
      less_pkt_len = size - s.frame.buf_len;
    };
  }

  -- Where the search for a tag leads.
  abbrev pub resync_to : Loop W → Option ℕ → Outcome (Round W)
  resync_to s none = ret (breaks (record s { frame = clear s.frame }))
  resync_to s (some i) =
      if i == s.frame.buf_len - i - 1
      then ret (breaks (record s { frame = clear s.frame }))
      else ret (
          goes_on (record s {
            frame = record (s.frame) { buf_len = s.frame.buf_len - i };
            pos = s.pos + i;
          }))

zero_end : (n : ℕ) → n + 0 ≡ n
zero_end n = omega arith

module _ {ℓ} {W : Type ℓ} (deliver : Msg → W → Outcome W) (s : Loop W) where
  module _ (calm : s.answers ≡ []) (inside : s.pos + s.frame.buf_len ≤ length s.frame.buf) where
    whole_packet-runs :
        (size : ℕ)
        → size ≤ s.frame.buf_len
        → whole_packet deliver s size ≡ (
            deliver (packet_of (take size (waiting s))) s.world >>= λ w.
            ret (goes_on (taken s size w)))
    unfolding whole_packet bufalloc
    whole_packet-runs size h = rw (
      calm,
      slice-window s.frame.buf s.pos size (omega arith),
      ◌>>=◌,
      poke-whole (zeros size) (window s.frame.buf s.pos size)
          (omega (arith, length-zeros size, length-window s.frame.buf s.pos size (omega arith))),
      ◌>>=◌,
      take-window s.frame.buf s.pos s.frame.buf_len inside size h,
      length-window s.frame.buf s.pos size (omega arith),
    )

    part_packet-runs :
        (size : ℕ)
        → s.frame.buf_len < size
        → part_packet s size ≡ ret (breaks (parted s size (put (zeros size) 0 (waiting s))))
    unfolding part_packet bufalloc
    part_packet-runs size h = rw (
      calm,
      slice-window s.frame.buf s.pos s.frame.buf_len inside,
      ◌>>=◌,
      poke-put (zeros size) 0 (waiting s) (
          omega (arith, length-zeros size, length-window s.frame.buf s.pos s.frame.buf_len inside)),
    )

    -- A tag, and the length field behind it.
    packet-runs :
        27 ≤ s.frame.buf_len
        → packet deliver s ≡ (
            if leb (announced (waiting s)) s.frame.buf_len
            then whole_packet deliver s (announced (waiting s))
            else part_packet s (announced (waiting s)))
    unfolding packet announced
    packet-runs h =
        rw (peek16-window s.frame.buf s.pos s.frame.buf_len inside 24 (omega arith)) refl

    resync-runs :
        27 ≤ s.frame.buf_len
        → resync s ≡ resync_to s (first_tag (waiting s) 0 (s.frame.buf_len - 1))
    unfolding resync
    resync-runs h =
        rw
          (find_tag-first_tag s.frame.buf s.pos s.frame.buf_len inside 0 (s.frame.buf_len - 1)
            (omega arith))
          (elim (Option-cases (first_tag (waiting s) 0 (s.frame.buf_len - 1))) [
            | inl e ↦ rw e (ground arith)
            | inr (i, e) ↦ rw e
          ])

    round-idle :
        s.frame.less_pkt_len ≡ 0
        → 27 ≤ s.frame.buf_len
        → round deliver s ≡ (if tagged (waiting s) 0 then packet deliver s else resync s)
    unfolding round
    round-idle idle h = rw (idle, front_tag) refl
      where
        front_tag : tag_at s.frame.buf s.pos ≡ ret (tagged (waiting s) 0)
        front_tag =
            rw (zero_end s.pos) at
              (tag_at-tagged s.frame.buf s.pos s.frame.buf_len inside 0 (omega arith))

    module _ (idle : s.frame.less_pkt_len ≡ 0) (h : 27 ≤ s.frame.buf_len) where
      pub round-whole :
          tagged (waiting s) 0 ≡ true
          → announced (waiting s) ≤ s.frame.buf_len
          → round deliver s ≡ (
              deliver (packet_of (take (announced (waiting s)) (waiting s))) s.world >>= λ w.
              ret (goes_on (taken s (announced (waiting s)) w)))
      round-whole tag fits =
          rw
            (
              round-idle idle h,
              tag,
              packet-runs h,
              le→leb (announced (waiting s)) s.frame.buf_len fits,
            )
            (whole_packet-runs (announced (waiting s)) fits)

      pub round-part :
          tagged (waiting s) 0 ≡ true
          → s.frame.buf_len < announced (waiting s)
          → round deliver s
            ≡ ret (
                breaks (
                  parted s
                    (announced (waiting s))
                    (put (zeros (announced (waiting s))) 0 (waiting s))))
      round-part tag short =
          rw
            (
              round-idle idle h,
              tag,
              packet-runs h,
              lt→leb (announced (waiting s)) s.frame.buf_len short,
            )
            (part_packet-runs (announced (waiting s)) short)

      pub round-untagged :
          tagged (waiting s) 0 ≡ false
          → round deliver s ≡ resync_to s (first_tag (waiting s) 0 (s.frame.buf_len - 1))
      round-untagged tag = rw (round-idle idle h, tag) (resync-runs h)
