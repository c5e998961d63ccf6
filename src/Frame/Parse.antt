-- ===== src/Frame/Parse.antt =====
-- The refinement of `TcpServer::parse`, put together: any number of rounds, and the move of what is
-- left to the front of the buffer.
use snframe.Base.{
  ℕ, suc, ◌+◌, ◌≤◌, ◌<◌, ◌≡◌, refl, sym, ◌∙◌, inl, inr, Bool-cases, length, Outcome, arith,
}
use native.Mathlib.Decide.{dec_lt}
use mathlib.Core.List.{append-nil}
use snframe.Memory.{Block, put}
use snframe.Packet.{Msg}
use snframe.Frame.{Loop, loop}
use snframe.Frame.Scan.{tagged, announced, scan, front-short, scan-stop}
use snframe.Frame.Window.{length-window, take-put}
use snframe.Frame.Steps.{waiting}
use snframe.Frame.Partial.{
  Partial, completed, extended, rest_packet-runs, more_packet-runs, extended-Partial, round-rest,
  round-more,
}
use snframe.Frame.States.{pending-idle, pending-part, length-pending-idle, completed-IsLoop}
use snframe.Frame.Refine.{
  IsLoop, pending, Refines, ends, refine-bind, loop-ends, loop-goes_on, loop-delivers,
}
use snframe.Frame.Simulate.{Agrees, step-whole, step-part, step-untagged}
use snframe.Frame.Join.{joined, length-joined, scan-joined_stop, scan-joined_packet}

module _ {ℓ} {W : Type ℓ} (deliver : Msg → W → Outcome W) where
  module _ (n m : ℕ) (rest : Agrees deliver n m) (s : Loop W) (h : IsLoop s)
      (fuel : s.frame.buf_len < suc n) (fuel' : length (pending s) < suc m) where
    abbrev pub Step : Type ℓ
    Step = Refines (loop deliver (suc n) s) (scan deliver (suc m) (pending s) s.world)

    pub step-short : s.frame.less_pkt_len ≡ 0 → s.frame.buf_len < 27 → Step
    step-short idle short =
        rw
          (
            loop-ends deliver n s short,
            scan-stop deliver m (pending s) s.world (pending s)
                (front-short (pending s) (omega (arith, length-pending-idle s h idle))),
          )
          (ends s (pending s) h refl)

    pub step-idle : s.frame.less_pkt_len ≡ 0 → 27 ≤ s.frame.buf_len → Step
    step-idle idle long = rw (pending-idle s idle) (elim (Bool-cases (tagged (waiting s) 0)) [
      | inl tag ↦ elim (dec_lt s.frame.buf_len (announced (waiting s))) [
        | yes short ↦ step-part deliver n m rest s h idle long fuel waits tag short
        | no fits ↦ step-whole deliver n m rest s h idle long fuel waits tag (omega arith)
      ]
      | inr tag ↦ step-untagged deliver n m rest s h idle long fuel waits tag
    ])
      where
        waits : length (waiting s) < suc m
        waits = rw (pending-idle s idle) at fuel'

    module _ (p : Partial s.frame) where
      inside : s.pos + s.frame.buf_len ≤ length s.frame.buf
      inside = omega (arith, h.inside, h.full)

      pub step-waits : s.frame.buf_len < 27 → s.frame.buf_len < s.frame.less_pkt_len → Step
      step-waits short few =
          rw (loop-ends deliver n s short, scan-joined_stop deliver s h p m few)
            (ends s (pending s) h refl)

      pub step-rest : 27 ≤ s.frame.buf_len → s.frame.less_pkt_len ≤ s.frame.buf_len → Step
      step-rest long enough =
          rw
            (
              loop-delivers deliver n s _ (completed s) long
                  (round-rest deliver s p enough ∙ rest_packet-runs deliver s p inside enough),
              scan-joined_packet deliver s h p m enough,
            )
            (refine-bind _ _ _ λ w.
              rest (completed s w) (completed-IsLoop s w h enough) (inl refl)
                (omega (arith, p.missing))
                (omega (
                  arith,
                  p.missing,
                  length-pending-idle (completed s w) (completed-IsLoop s w h enough) refl,
                  at_least,
                )))
        where
          at_least : s.frame.buf_len ≤ length (pending s)
          at_least = rw (joined deliver s h p) (omega (arith, length-joined deliver s h p))

      -- The block of `pkt` after some of the missing bytes.
      filled : Block
      filled = put p.block s.frame.pkt.m_len (waiting s)

      extended-IsLoop :
          s.frame.buf_len < s.frame.less_pkt_len
          → IsLoop (extended s (put p.block s.frame.pkt.m_len (waiting s)))
      extended-IsLoop few = record {
        full = h.full;
        inside = omega (arith, h.inside);
        calm = h.calm;
        part = inr (extended-Partial deliver s p inside few);
      }

      extended-pending :
          s.frame.buf_len < s.frame.less_pkt_len
          → pending (extended s (put p.block s.frame.pkt.m_len (waiting s))) ≡ pending s
      extended-pending few =
          pending-part (extended s (put p.block s.frame.pkt.m_len (waiting s)))
            (put p.block s.frame.pkt.m_len (waiting s)) refl (omega arith)
          ∙ append-nil _
          ∙ (rw measured at
              (take-put p.block s.frame.pkt.m_len (waiting s) (omega (arith, p.whole, measured))))
          ∙ sym (joined deliver s h p)
        where
          measured : length (waiting s) ≡ s.frame.buf_len
          measured = length-window s.frame.buf s.pos s.frame.buf_len inside

      pub step-more :
          (k : ℕ) → n ≡ suc k → 27 ≤ s.frame.buf_len → s.frame.buf_len < s.frame.less_pkt_len → Step
      step-more k e long few =
          rw
            (
              loop-goes_on deliver n s (extended s (put p.block s.frame.pkt.m_len (waiting s))) long
                  (round-more deliver s p few ∙ more_packet-runs deliver s p inside few),
              e,
              loop-ends deliver k (extended s (put p.block s.frame.pkt.m_len (waiting s)))
                  (omega arith),
              scan-joined_stop deliver s h p m few,
            )
            (ends (extended s (put p.block s.frame.pkt.m_len (waiting s))) (pending s)
              (extended-IsLoop few) (extended-pending few))
