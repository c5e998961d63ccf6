-- ===== src/Frame/Simulate.antt =====
-- The induction behind the refinement of `TcpServer::parse`: a round of the loop is a step of `scan`.
use snframe.Base.{
  ℕ, suc, ◌+◌, ◌-◌, ◌≤◌, ◌<◌, ◌≡◌, refl, ◌∙◌, inl, inr, true, false, Bool-cases, Option-cases,
  Option, some, [], length, take, drop, ◌==◌, Outcome, ret, arith,
}
use mathlib.Core.List.{append-nil}
use snframe.Memory.{put, zeros, length-zeros}
use snframe.Packet.{Msg}
use snframe.Frame.{Loop, breaks, round, loop, clear, length-blank_buf}
use snframe.Frame.Scan.{
  announced-ge, stop, packet_of, tagged, announced, front, scan, skip_to, first_tag,
  first_tag-bounds, first_tag-pos, front-packet, front-part, front-untagged, scan-packet, scan-skip,
  scan-stop,
}
use snframe.Frame.Window.{length-window, drop-window, take-put}
use snframe.Frame.Steps.{waiting, taken, parted, round-whole, round-part, round-untagged, resync_to}
use snframe.Frame.Partial.{Partial, parted-Partial}
use snframe.Frame.States.{
  IsReady, pending-idle, pending-part, length-pending-idle, taken-IsLoop, passed, passed-IsLoop,
}
use snframe.Frame.Refine.{
  IsLoop, pending, Refines, ends, refine-bind, loop-breaks, loop-goes_on, loop-delivers,
}

module _ {ℓ} {W : Type ℓ} (deliver : Msg → W → Outcome W) where
  -- `loop` with fuel `n` and `scan` with fuel `m` agree wherever the fuel is enough.
  abbrev pub Agrees : ℕ → ℕ → Type ℓ
  Agrees n m =
      (t : Loop W)
      → IsLoop t
      → IsReady t
      → t.frame.buf_len < n
      → length (pending t) < m
      → Refines (loop deliver n t) (scan deliver m (pending t) t.world)

  module _ (n m : ℕ) (rest : Agrees n m) (s : Loop W) (h : IsLoop s)
      (idle : s.frame.less_pkt_len ≡ 0) (long : 27 ≤ s.frame.buf_len)
      (fuel : s.frame.buf_len < suc n) (fuel' : length (waiting s) < suc m) where
    inside : s.pos + s.frame.buf_len ≤ length s.frame.buf
    inside = omega (arith, h.inside, h.full)

    measured : length (waiting s) ≡ s.frame.buf_len
    measured = length-window s.frame.buf s.pos s.frame.buf_len inside

    abbrev pub Step : Type ℓ
    Step = Refines (loop deliver (suc n) s) (scan deliver (suc m) (waiting s) s.world)

    pub step-whole : tagged (waiting s) 0 ≡ true → announced (waiting s) ≤ s.frame.buf_len → Step
    step-whole tag fits =
        rw
          (
            loop-delivers deliver n s _ (taken s size) long
                (round-whole deliver s h.calm inside idle long tag fits),
            scan-packet deliver m (waiting s) s.world _ _
                (front-packet (waiting s) (omega (arith, measured)) tag (omega (arith, measured))),
          )
          (refine-bind (deliver (packet_of (take size (waiting s))) s.world) _ _ λ w.
            rw
              (
                pending-idle (taken s size w) idle,
                ← drop-window s.frame.buf s.pos s.frame.buf_len inside size fits,
              )
              at
              (rest (taken s size w) (taken-IsLoop s size w h idle fits) (inl idle) (shorter w).0
                (shorter w).1))
      where
        size : ℕ
        size = announced (waiting s)

        shorter :
            (w : W)
            → (s.frame.buf_len - announced (waiting s) < n)
              × (length (pending (taken s (announced (waiting s)) w)) < m)
        shorter w = (
          omega (arith, announced-ge (waiting s)),
          omega (
            arith,
            announced-ge (waiting s),
            measured,
            length-pending-idle (taken s (announced (waiting s)) w)
                (taken-IsLoop s (announced (waiting s)) w h idle fits) idle,
          ),
        )

    pub step-part : tagged (waiting s) 0 ≡ true → s.frame.buf_len < announced (waiting s) → Step
    step-part tag short =
        rw
          (
            loop-breaks deliver n s _ long (round-part deliver s h.calm inside idle long tag short),
            scan-stop deliver m (waiting s) s.world _
                (front-part (waiting s) (omega (arith, measured)) tag (omega (arith, measured))),
          )
          (ends t (waiting s) sound kept)
      where
        t : Loop W
        t = parted s (announced (waiting s)) (put (zeros (announced (waiting s))) 0 (waiting s))

        partial :
            Partial
              (parted s
                (announced (waiting s))
                (put (zeros (announced (waiting s))) 0 (waiting s))).frame
        partial = parted-Partial s inside long short tag

        sound :
            IsLoop
              (parted s (announced (waiting s)) (put (zeros (announced (waiting s))) 0 (waiting s)))
        sound = record {
          full = h.full;
          inside = omega (arith, h.inside);
          calm = h.calm;
          part = inr partial;
        }

        front_kept :
            take (0 + length (waiting s)) (put (zeros (announced (waiting s))) 0 (waiting s))
            ≡ waiting s
        front_kept =
            take-put (zeros (announced (waiting s))) 0 (waiting s)
              (omega (arith, measured, length-zeros (announced (waiting s))))

        all : 0 + length (waiting s) ≡ s.frame.buf_len
        all = omega (arith, measured)

        kept :
            pending
              (parted s (announced (waiting s)) (put (zeros (announced (waiting s))) 0 (waiting s)))
            ≡ waiting s
        kept =
            pending-part t (put (zeros (announced (waiting s))) 0 (waiting s)) refl partial.missing
            ∙ append-nil _
            ∙ rw all at front_kept

    step-cleared :
        round deliver s ≡ ret (breaks (record s { frame = clear s.frame }))
        → front (waiting s) ≡ stop []
        → Step
    unfolding clear
    step-cleared e f =
        rw (loop-breaks deliver n s _ long e, scan-stop deliver m (waiting s) s.world [] f)
          (ends (record s { frame = clear s.frame }) []
            (record {
              full = length-blank_buf;
              inside = omega (arith, h.inside);
              calm = h.calm;
              part = inl refl;
            })
            refl)

    pub step-untagged : tagged (waiting s) 0 ≡ false → Step
    unfolding skip_to
    step-untagged tag = elim (Option-cases found) [
      | inl e ↦ step-cleared (rw e at runs) (rw e at seen)
      | inr (i, e) ↦ elim (Bool-cases (i == s.frame.buf_len - i - 1)) [
        | inl odd ↦ step-cleared (rw odd at (rw e at runs)) (rw (measured, odd) at (rw e at seen))
        | inr even ↦
            rw
              (
                loop-goes_on deliver n s (passed s i) long (rw even at (rw e at runs)),
                scan-skip deliver m (waiting s) s.world (drop i (waiting s))
                    (rw (measured, even) at (rw e at seen)),
                drop-window s.frame.buf s.pos s.frame.buf_len inside i
                    (omega (arith, first_tag-bounds (waiting s) 0 (s.frame.buf_len - 1) i e)),
                ← pending-idle (passed s i) idle,
              )
              (rest (passed s i)
                (passed-IsLoop s i h idle
                  (omega (arith, first_tag-bounds (waiting s) 0 (s.frame.buf_len - 1) i e)))
                (inl idle) (shorter i e).0 (shorter i e).1)
      ]
    ]
      where
        found : Option ℕ
        found = first_tag (waiting s) 0 (s.frame.buf_len - 1)

        runs : round deliver s ≡ resync_to s (first_tag (waiting s) 0 (s.frame.buf_len - 1))
        runs = round-untagged deliver s h.calm inside idle long tag

        seen :
            front (waiting s) ≡ skip_to (waiting s) (first_tag (waiting s) 0 (s.frame.buf_len - 1))
        seen = rw measured at (front-untagged (waiting s) (omega (arith, measured)) tag)

        shorter :
            (i : ℕ)
            → first_tag (waiting s) 0 (s.frame.buf_len - 1) ≡ some i
            → (s.frame.buf_len - i < n) × (length (pending (passed s i)) < m)
        shorter i e =
            let bounds = first_tag-bounds (waiting s) 0 (s.frame.buf_len - 1) i e in
            let positive = first_tag-pos (waiting s) (s.frame.buf_len - 1) i tag e in
            (
              omega arith,
              omega (
                arith,
                measured,
                length-pending-idle (passed s i) (passed-IsLoop s i h idle (omega arith)) idle,
              ),
            )
