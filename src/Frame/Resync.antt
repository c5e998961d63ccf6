-- ===== src/Frame/Resync.antt =====
-- The search for a tag in `TcpServer::parse` of src/core/TcpServer.cpp: what is passed over.
use snframe.Base.{
  ℕ, zero, suc, ◌+◌, ◌-◌, ◌≤◌, ◌<◌, ◌≡◌, ◌∙◌, Bool-cases, inl, inr, true, false, some, List, [],
  length, drop, ◌==◌, if◌then◌else◌, Outcome, ret, ◌>>=◌, arith,
}
use snframe.Packet.{Msg}
use snframe.Frame.{Frame, parse}
use snframe.Frame.Scan.{
  scan, tagged, first_tag, skip_to, skip, stop, front, front-untagged, scan-skip, scan-stop,
}
use snframe.Frame.Delivery.{IsFrame, kept, parse-scan}

first_tag-here :
    (xs : List ℕ) (k i n : ℕ)
    → ((j : ℕ) → j < k + i → tagged xs j ≡ false)
    → tagged xs (k + i) ≡ true
    → i < n
    → first_tag xs k n ≡ some (k + i)
unfolding first_tag
first_tag-here xs k i zero before here h = absurd (omega arith)
first_tag-here xs k zero (suc n) before here h =
    let e : k + 0 ≡ k = omega arith in rw (e, rw e at here)
first_tag-here xs k (suc i) (suc n) before here h =
    let e : k + suc i ≡ k + 1 + i = omega arith in
    rw (
      before k (omega arith),
      e,
      first_tag-here xs (k + 1) i n (λ j l. before j (omega arith)) (rw e at here) (omega arith),
    )

module _ {ℓ} {W : Type ℓ} (deliver : Msg → W → Outcome W) where
  -- 27 bytes or more wait, nothing is half copied, malloc does not fail, and the first tag stands `i`
  -- bytes from the front, `i` at least 1. `parse` goes on at the tag; but where the tag's first byte
  -- stands exactly in the middle it drops all that waits, the tag and what follows it too.
  pub parse-resync :
      (f : Frame) (i : ℕ) (w : W)
      → IsFrame f
      → f.less_pkt_len ≡ 0
      → 27 ≤ length (kept f)
      → 1 ≤ i
      → i + 1 < length (kept f)
      → ((j : ℕ) → j < i → tagged (kept f) j ≡ false)
      → tagged (kept f) i ≡ true
      → (parse deliver f [] w >>= λ t. ret (kept t.frame, t.world)) ≡ (
          if i == length (kept f) - i - 1
          then ret ([], w)
          else scan deliver (length (kept f)) (drop i (kept f)) w)
  unfolding skip_to
  parse-resync f i w h idle long pos room before here =
      parse-scan deliver f w h (inl idle)
      ∙ rw next (elim (Bool-cases (i == length (kept f) - i - 1)) [
        | inl odd ↦ rw odd (scan-stop deliver (length (kept f)) (kept f) w [] (rw odd at seen))
        | inr even ↦
            rw even
              (scan-skip deliver (length (kept f)) (kept f) w (drop i (kept f)) (rw even at seen))
      ])
    where
      next : length (kept f) + 1 ≡ suc (length (kept f))
      next = omega arith

      start_end : 0 + i ≡ i
      start_end = omega arith

      found : first_tag (kept f) 0 (length (kept f) - 1) ≡ some i
      found = rw start_end at (
          first_tag-here (kept f) 0 i (length (kept f) - 1) (λ j l. before j (omega arith))
            (rw start_end here) (omega arith))

      seen :
          front (kept f)
          ≡ (if i == length (kept f) - i - 1 then stop [] else skip (drop i (kept f)))
      seen = rw found at (front-untagged (kept f) long (before 0 (omega arith)))
