-- ===== src/Frame/States.antt =====
-- Soundness of the loop's variables, and the bytes that are pending, after each kind of round.
use snframe.Base.{ℕ, ◌+◌, ◌-◌, ◌≤◌, ◌<◌, ◌≡◌, refl, inl, ◌⊎◌, some, ◌++◌, length, take, arith}
use snframe.Memory.{Block}
use snframe.Frame.{Loop}
use snframe.Frame.Window.{length-window}
use snframe.Frame.Steps.{waiting, taken}
use snframe.Frame.Partial.{completed}
use snframe.Frame.Refine.{IsLoop, pending}

-- The rounds from here on take what waits: nothing is half copied, or enough bytes are there to go on,
-- or too few to finish the packet.
abbrev pub IsReady {ℓ} : {W : Type ℓ} → Loop W → Type 0
IsReady s =
    (s.frame.less_pkt_len ≡ 0) ⊎ (27 ≤ s.frame.buf_len) ⊎ (s.frame.buf_len < s.frame.less_pkt_len)

module _ {ℓ} {W : Type ℓ} where
  pub pending-idle : (s : Loop W) → s.frame.less_pkt_len ≡ 0 → pending s ≡ waiting s
  pending-idle s e = ground arith

  pub pending-part :
      (s : Loop W) (block : Block)
      → s.frame.pkt.m_data ≡ some block
      → 1 ≤ s.frame.less_pkt_len
      → pending s ≡ take s.frame.pkt.m_len block ++ waiting s
  pending-part s block e h = rw e (ground arith)

  pub length-pending-idle :
      (s : Loop W) → IsLoop s → s.frame.less_pkt_len ≡ 0 → length (pending s) ≡ s.frame.buf_len
  length-pending-idle s h e =
      rw (pending-idle s e)
        (length-window s.frame.buf s.pos s.frame.buf_len (omega (arith, h.inside, h.full)))

  pub taken-IsLoop :
      (s : Loop W) (size : ℕ) (w : W)
      → IsLoop s
      → s.frame.less_pkt_len ≡ 0
      → size ≤ s.frame.buf_len
      → IsLoop (taken s size w)
  taken-IsLoop s size w h e f = record {
    full = h.full;
    inside = omega (arith, h.inside);
    calm = h.calm;
    part = inl e;
  }

  -- After the `i` bytes before a tag.
  abbrev pub passed : Loop W → ℕ → Loop W
  passed s i = record s {
    frame = record (s.frame) { buf_len = s.frame.buf_len - i };
    pos = s.pos + i;
  }

  pub passed-IsLoop :
      (s : Loop W) (i : ℕ)
      → IsLoop s
      → s.frame.less_pkt_len ≡ 0
      → i ≤ s.frame.buf_len
      → IsLoop (passed s i)
  passed-IsLoop s i h e f = record {
    full = h.full;
    inside = omega (arith, h.inside);
    calm = h.calm;
    part = inl e;
  }

  pub completed-IsLoop :
      (s : Loop W) (w : W)
      → IsLoop s
      → s.frame.less_pkt_len ≤ s.frame.buf_len
      → IsLoop (completed s w)
  completed-IsLoop s w h f = record {
    full = h.full;
    inside = omega (arith, h.inside);
    calm = h.calm;
    part = inl refl;
  }
