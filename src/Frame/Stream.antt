-- ===== src/Frame/Stream.antt =====
-- Streams of packets: what `TcpServer::parse` of src/core/TcpServer.cpp does with a buffer of whole
-- packets.
use snframe.Base.{
  ℕ, zero, suc, ◌+◌, ◌-◌, ◌≤◌, ◌<◌, ◌≡◌, ◌∙◌, inl, inr, ◌⊎◌, true, false, Bool-cases, Option-cases,
  List, [], ◌∷◌, ◌++◌, length, take, drop, length-drop, length-take, length-append, take-append,
  drop-append, get_or-append_left, ◌==◌, Outcome, ret, ◌>>=◌, bind-cong, bind_assoc, arith,
}
use native.Mathlib.Decide.{dec_lt}
use snframe.Memory.{byte}
use snframe.Packet.{Msg}
use snframe.Frame.{Frame, parse}
use snframe.Frame.Scan.{
  scan, packet_of, tagged, announced, front, packet, skip, stop, skip_to, first_tag,
  first_tag-bounds, first_tag-pos, announced-ge, scan-packet, scan-stop, front-packet, front-short,
  front-part, front-untagged,
}
use snframe.Frame.Partial.{announced-cong}
use snframe.Frame.Delivery.{IsFrame, kept, parse-scan}

-- A whole packet: a tag in front, and as many bytes as it announces.
pub record IsWhole (p : List ℕ) : Type 0 where
  pub tag : tagged p 0 ≡ true
  pub size : announced p ≡ length p

-- The packets of a stream.
pub data AllWhole : List (List ℕ) → Type 0 where
  all_nil : AllWhole []
  all_cons : (p : List ℕ) (ps : List (List ℕ)) → IsWhole p → AllWhole ps → AllWhole (p ∷ ps)

abbrev pub joined : List (List ℕ) → List ℕ → List ℕ
joined [] tail = tail
joined (p ∷ ps) tail = p ++ joined ps tail

-- One after another.
abbrev pub deliver_all {ℓ} : {W : Type ℓ} → (Msg → W → Outcome W) → List (List ℕ) → W → Outcome W
deliver_all deliver [] w = ret w
deliver_all deliver (p ∷ ps) w = deliver (packet_of p) w >>= deliver_all deliver ps

whole-size : (p : List ℕ) → IsWhole p → 27 ≤ length p
whole-size p h = omega (arith, announced-ge p, h.size)

front-whole : (p rest : List ℕ) → IsWhole p → front (p ++ rest) ≡ packet p rest
front-whole p rest h =
    rw (take-append p rest (announced (p ++ rest)) e, drop-append p rest (announced (p ++ rest)) e)
      at
      (front-packet (p ++ rest) (omega (arith, length-append p rest, whole-size p h)) tag
        (omega (arith, length-append p rest, whole-size p h, e)))
  where
    same : (j : ℕ) → j < 27 → byte (p ++ rest) j ≡ byte p j
    same j k = get_or-append_left p rest j 0 (omega (arith, whole-size p h))

    e : announced (p ++ rest) ≡ length p
    e = announced-cong (p ++ rest) p (same 24 (omega arith)) (same (24 + 1) (omega arith)) ∙ h.size

    tag : tagged (p ++ rest) 0 ≡ true
    tag = rw (same 0 (omega arith), same (0 + 1) (omega arith)) h.tag

skip_to-cases :
    (xs : List ℕ)
    → tagged xs 0 ≡ false
    → 27 ≤ length xs
    → ((rest : List ℕ) × (skip_to xs (first_tag xs 0 (length xs - 1)) ≡ skip rest)
        × (length rest < length xs))
      ⊎ ((rest : List ℕ) × (skip_to xs (first_tag xs 0 (length xs - 1)) ≡ stop rest))
unfolding skip_to
skip_to-cases xs untagged long = elim (Option-cases (first_tag xs 0 (length xs - 1))) [
  | inl e ↦ inr ([], rw e)
  | inr (i, e) ↦ elim (Bool-cases (i == length xs - i - 1)) [
    | inl odd ↦ inr ([], rw (e, odd))
    | inr even ↦ inl (
      drop i xs,
      rw (e, even),
      omega (
        arith,
        length-drop i xs,
        first_tag-bounds xs 0 (length xs - 1) i e,
        first_tag-pos xs (length xs - 1) i untagged e,
      ),
    )
  ]
]

-- What is kept, and what the deliveries have made.
abbrev pub with_tail {ℓ} : {W : Type ℓ} → List ℕ → W → Outcome (List ℕ × W)
with_tail tail w = ret (tail, w)

-- The three cases of `front`: what is taken or passed over is not empty.
pub front-cases :
    (xs : List ℕ)
    → ((p : List ℕ) × (rest : List ℕ) × (front xs ≡ packet p rest)
        × (length rest < length xs)
        × (27 ≤ length p))
      ⊎ ((rest : List ℕ) × (front xs ≡ skip rest) × (length rest < length xs))
      ⊎ ((rest : List ℕ) × (front xs ≡ stop rest))
front-cases xs = elim (dec_lt (length xs) 27) [
  | yes short ↦ inr (inr (xs, front-short xs short))
  | no long ↦ elim (Bool-cases (tagged xs 0)) [
    | inl tag ↦ elim (dec_lt (length xs) (announced xs)) [
      | yes part ↦ inr (inr (xs, front-part xs (omega arith) tag part))
      | no fits ↦ inl (
        take (announced xs) xs,
        drop (announced xs) xs,
        front-packet xs (omega arith) tag (omega arith),
        omega (arith, length-drop (announced xs) xs, announced-ge xs),
        omega (arith, length-take (announced xs) xs, announced-ge xs),
      )
    ]
    | inr untagged ↦ elim (skip_to-cases xs untagged (omega arith)) [
      | inl (rest, e, shorter) ↦
          inr (inl (rest, front-untagged xs (omega arith) untagged ∙ e, shorter))
      | inr (rest, e) ↦ inr (inr (rest, front-untagged xs (omega arith) untagged ∙ e))
    ]
  ]
]

module _ {ℓ} {W : Type ℓ} (deliver : Msg → W → Outcome W) where
  scan-stream :
      (ps : List (List ℕ)) (tail : List ℕ) (m : ℕ) (w : W)
      → AllWhole ps
      → length tail < 27
      → length (joined ps tail) < m
      → scan deliver m (joined ps tail) w ≡ (deliver_all deliver ps w >>= with_tail tail)
  scan-stream ps tail zero w h short fuel = absurd (omega arith)
  scan-stream _ tail (suc m) w all_nil short fuel =
      scan-stop deliver m tail w tail (front-short tail short)
  scan-stream _ tail (suc m) w (all_cons p ps h hs) short fuel =
      scan-packet deliver m (p ++ joined ps tail) w p (joined ps tail)
        (front-whole p (joined ps tail) h)
      ∙ bind-cong (deliver (packet_of p) w) _ _ (λ v.
        scan-stream ps tail m v hs short
          (omega (arith, length-append p (joined ps tail), whole-size p h)))
      ∙ bind_assoc (deliver (packet_of p) w) (deliver_all deliver ps) (with_tail tail)

  -- A buffer that holds whole packets, then fewer than 27 bytes, and nothing half copied; malloc does
  -- not fail. `parse` delivers exactly these packets, in order, and keeps exactly the bytes behind
  -- them.
  pub parse-stream :
      (f : Frame) (ps : List (List ℕ)) (tail : List ℕ) (w : W)
      → IsFrame f
      → f.less_pkt_len ≡ 0
      → kept f ≡ joined ps tail
      → AllWhole ps
      → length tail < 27
      → (parse deliver f [] w >>= λ t. ret (kept t.frame, t.world))
        ≡ (deliver_all deliver ps w >>= with_tail tail)
  parse-stream f ps tail w h idle e whole short =
      parse-scan deliver f w h (inl idle)
      ∙ rw e (scan-stream ps tail (length (joined ps tail) + 1) w whole short (omega arith))
