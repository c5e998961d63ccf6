-- ===== src/Frame/Safe.antt =====
-- Where `TcpServer::parse` of src/core/TcpServer.cpp with the delivery that the program has accesses
-- memory that it does not own.
use snframe.Base.{
  ℕ, zero, suc, ◌+◌, ◌<◌, ◌≡◌, refl, ◌∙◌, inl, inr, ◌⊎◌, true, false, Bool, List, [], length, ltb,
  lt→ltb, le→ltb, ◌&&◌, if◌then◌else◌, Outcome, ret, fault, stuck, ◌>>=◌, arith,
}
use native.Mathlib.Decide.{dec_lt}
use snframe.Memory.{peek16-u16}
use snframe.Packet.{Msg}
use snframe.Packet.Seal.{check_lem}
use snframe.Packet.Check.{check-fault}
use snframe.Packet.Header.{get_sid}
use snframe.Protocol.{ProtocolIds}
use snframe.Frame.{Frame, Loop, parse, dispatch}
use snframe.Frame.Scan.{
  scan, packet_of, front, packet, skip, stop, scan-packet, scan-stop, scan-skip,
}
use snframe.Frame.States.{IsReady}
use snframe.Frame.Delivery.{IsFrame, kept, start, parse-scan, parse-IsFrame}
use snframe.Frame.Stream.{front-cases}

-- Whether each packet that is cut out of these bytes has a body. Each round takes a byte at least.
unfoldable pub have_bodies : ℕ → List ℕ → Bool
have_bodies zero xs = true
have_bodies (suc m) xs = elim (front xs) [
  | packet p rest ↦ ltb 27 (length p) && have_bodies m rest
  | skip rest ↦ have_bodies m rest
  | stop rest ↦ true
]

module _ (m : ℕ) (xs rest : List ℕ) where
  have_bodies-packet :
      (p : List ℕ)
      → front xs ≡ packet p rest
      → have_bodies (suc m) xs ≡ (ltb 27 (length p) && have_bodies m rest)
  unfolding have_bodies
  have_bodies-packet p e = rw (e, have_bodies)

  have_bodies-skip : front xs ≡ skip rest → have_bodies (suc m) xs ≡ have_bodies m rest
  unfolding have_bodies
  have_bodies-skip e = rw (e, have_bodies)

  have_bodies-stop : front xs ≡ stop rest → have_bodies (suc m) xs ≡ true
  unfolding have_bodies
  have_bodies-stop e = rw (e, have_bodies)

-- The outcome of the first part of a chain that returns.
returned {ℓ κ} :
    {A : Type ℓ} {B : Type κ} (f : A → B) (o : Outcome A) (b : B)
    → (o >>= λ a. ret (f a)) ≡ ret b
    → (a : A) × (o ≡ ret a)
returned f (ret a) b e = (a, refl)
returned f fault b e = cc
returned f stuck b e = cc

faulted {ℓ κ} :
    {A : Type ℓ} {B : Type κ} (f : A → B) (o : Outcome A)
    → (o >>= λ a. ret (f a)) ≡ fault
    → o ≡ fault
faulted f (ret a) e = cc
faulted f fault e = refl
faulted f stuck e = cc

-- A function that returns.
abbrev pub Returns {ℓ} : {W : Type ℓ} → (Msg → W → Outcome W) → Type ℓ
Returns {W} deliver = (p : Msg) (v : W) → (u : W) × (deliver p v ≡ ret u)

module _ {ℓ} {W : Type ℓ} (ids : ProtocolIds) (common handler : Msg → W → Outcome W) where
  dispatch-bare :
      (p : List ℕ) (w : W) → length p ≡ 27 → dispatch ids common handler (packet_of p) w ≡ fault
  unfolding dispatch
  dispatch-bare p w e = rw (check-fault (packet_of p) p refl e, ◌>>=◌) refl

  module _ (common_returns : Returns common) (handler_returns : Returns handler) where
    chosen :
        (b c : Bool) (p : Msg) (w : W)
        → (u : W) × ((if b then (if c then common p w else handler p w) else ret w) ≡ ret u)
    chosen true true p w = common_returns p w
    chosen true false p w = handler_returns p w
    chosen false c p w = (w, refl)

    dispatch-body :
        (p : List ℕ) (w : W)
        → 27 < length p
        → (u : W) × (dispatch ids common handler (packet_of p) w ≡ ret u)
    unfolding dispatch get_sid
    dispatch-body p w h =
        rw
          (
            check_lem (packet_of p) p refl h (omega arith),
            ◌>>=◌,
            peek16-u16 p 16 (omega arith),
            ◌>>=◌,
          )
          (chosen _ _ (packet_of p) w)

    -- What `scan` does.
    abbrev Scanned : Bool → Outcome (List ℕ × W) → Type ℓ
    Scanned b o = ((b ≡ true) × (r : List ℕ × W) × (o ≡ ret r)) ⊎ ((b ≡ false) × (o ≡ fault))

    scan-Scanned :
        (m : ℕ) (xs : List ℕ) (w : W)
        → length xs < m
        → Scanned (have_bodies m xs) (scan (dispatch ids common handler) m xs w)
    scan-Scanned zero xs w fuel = absurd (omega arith)
    scan-Scanned (suc m) xs w fuel = elim (front-cases xs) [
      | inl (p, rest, e, shorter, size) ↦
          rw
            (
              scan-packet (dispatch ids common handler) m xs w p rest e,
              have_bodies-packet m xs rest p e,
            )
            (elim (dec_lt 27 (length p)) [
              | yes body ↦
                  let (u, d) = dispatch-body p w body in
                  rw (d, ◌>>=◌, lt→ltb 27 (length p) body) (scan-Scanned m rest u (omega arith))
              | no bare ↦
                  rw (dispatch-bare p w (omega arith), ◌>>=◌, le→ltb 27 (length p) (omega arith))
                    (inr (refl, refl))
            ])
      | inr (inl (rest, e, shorter)) ↦
          rw (scan-skip (dispatch ids common handler) m xs w rest e, have_bodies-skip m xs rest e)
            (scan-Scanned m rest w (omega arith))
      | inr (inr (rest, e)) ↦
          rw (scan-stop (dispatch ids common handler) m xs w rest e, have_bodies-stop m xs rest e)
            (inl (refl, (rest, w), refl))
    ]

    -- The functions that packets go to come to an end without an access outside a buffer, and malloc
    -- does not fail. A connection is between two calls, and either no packet is half copied, or 27
    -- bytes wait, or too few to finish it. Where each packet that `scan` cuts out of the bytes that
    -- wait has a body, `parse` with `check` in front of these functions comes to an end without an
    -- access outside a buffer, and leaves a connection that the next call can start from. Where one
    -- has not, `parse` accesses memory outside a buffer.
    pub parse-safe :
        (f : Frame) (w : W)
        → IsFrame f
        → IsReady (start f [] w)
        → ((have_bodies (length (kept f) + 1) (kept f) ≡ true)
            × (t : Loop W) × (parse (dispatch ids common handler) f [] w ≡ ret t)
            × IsFrame t.frame)
          ⊎ ((have_bodies (length (kept f) + 1) (kept f) ≡ false)
              × (parse (dispatch ids common handler) f [] w ≡ fault))
    parse-safe f w h ready = elim all [
      | inl (b, r, e) ↦
          let (t, d) =
            returned (λ t. (kept t.frame, t.world)) (parse deliver f [] w) r
              (parse-scan deliver f w h ready ∙ e) in
          inl (b, t, d, parse-IsFrame deliver f w t h ready d)
      | inr (b, e) ↦ inr (
        b,
        faulted (λ t. (kept t.frame, t.world)) (parse deliver f [] w)
            (parse-scan deliver f w h ready ∙ e),
      )
    ]
      where
        deliver : Msg → W → Outcome W
        deliver = dispatch ids common handler

        all :
            Scanned
              (have_bodies (length (kept f) + 1) (kept f))
              (scan deliver (length (kept f) + 1) (kept f) w)
        all = scan-Scanned (length (kept f) + 1) (kept f) w (omega arith)
