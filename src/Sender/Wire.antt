-- ===== src/Sender/Wire.antt =====
-- What `sendBlock` of src/core/Sender.cpp puts on the wire.
use snframe.Base.{
  ℕ, zero, suc, ◌+◌, ◌-◌, ◌≤◌, ◌≡◌, refl, sym, ap, ◌∙◌, min, Bool, Bool-cases, ==_iff, inl, inr,
  true, false, List, [], ◌∷◌, ◌++◌, length, take, drop, le→leb, ◌==◌, Outcome, ret, stuck,
  length-drop, drop-drop, drop-take, take-take, take-append-drop, ◌>>=◌, arith, length-take,
}
use mathlib.Core.List.{append_assoc, append-nil}
use mathlib.Core.Path.{subst}
use snframe.Memory.{Block, slice}
use snframe.Conn.{Send, send_failed, send_again, sends}
use snframe.Packet.{Msg, bytes}
use snframe.Sender.{send_from, send_block}

abbrev pub is_nil : List ℕ → Bool
is_nil [] = true
is_nil (x ∷ xs) = false

-- A loop that has put `wire` out, of a block whose bytes `rest` are still to be sent: it asks the
-- kernel again where there are no more answers, or ends with a part of the bytes, in order, and
-- answers 0 exactly if nothing is left.
pub data Sent (wire rest : List ℕ) (r : Outcome (List ℕ × Bool)) : Type 0 where
  spins : r ≡ stuck → Sent wire rest r
  ends :
      (out left : List ℕ)
      → r ≡ ret (wire ++ out, is_nil left)
      → out ++ left ≡ rest
      → Sent wire rest r

-- The bytes that are still to be sent.
abbrev pub rest_of : Block → ℕ → ℕ → List ℕ
rest_of xs pos send_len = take send_len (drop pos xs)

nothing_left : (xs : Block) (pos n : ℕ) → pos + n ≤ length xs → (n == 0) ≡ is_nil (rest_of xs pos n)
nothing_left xs pos n h =
    by_length n (rest_of xs pos n) (omega (arith, length-take n (drop pos xs), length-drop pos xs))
  where
    by_length : (m : ℕ) (ys : List ℕ) → length ys ≡ m → (m == 0) ≡ is_nil ys
    by_length m [] e = ground arith
    by_length m (y ∷ ys) e = ground arith

stops :
    (xs : Block) (pos n : ℕ) (wire : List ℕ)
    → pos + n ≤ length xs
    → Sent wire (rest_of xs pos n) (ret (wire, n == 0))
stops xs pos n wire h =
    ends [] (rest_of xs pos n) (rw (nothing_left xs pos n h, append-nil) refl) refl

further :
    (wire out rest : List ℕ) (r : Outcome (List ℕ × Bool))
    → Sent (wire ++ out) rest r
    → Sent wire (out ++ rest) r
further wire out rest r (spins e) = spins e
further wire out rest r (ends more left e f) =
    ends (out ++ more) left (e ∙ rw append_assoc refl)
      (append_assoc out more left ∙ ap (◌++◌ out) f)

-- The first `m` of these bytes, and the others.
rest-splits :
    (xs : Block) (pos m n : ℕ)
    → m ≤ n
    → take m (drop pos xs) ++ rest_of xs (pos + m) (n - m) ≡ rest_of xs pos n
rest-splits xs pos m n h =
    rw (← drop-drop m pos xs, ← drop-take (drop pos xs) m n h, ← take-take (drop pos xs) m n h)
      (take-append-drop m (take n (drop pos xs)))

-- The kernel takes `m` bytes.
takes-Sent :
    (xs : Block) (pos m n : ℕ) (wire : List ℕ) (go : List ℕ → Outcome (List ℕ × Bool))
    → m ≤ n
    → pos + n ≤ length xs
    → ((out : List ℕ) → Sent (wire ++ out) (rest_of xs (pos + m) (n - m)) (go out))
    → Sent wire (rest_of xs pos n) (slice xs pos m >>= go)
unfolding slice
takes-Sent xs pos m n wire go le h rest = rw (le→leb (pos + m) (length xs) (omega arith)) (
    subst (λ ys. Sent wire ys (go (take m (drop pos xs)))) (rest-splits xs pos m n le)
      (further wire _ _ _ (rest (take m (drop pos xs)))))

-- For all answers of the kernel.
send_from-Sent :
    (answers : List Send) (xs : Block) (pos n : ℕ) (wire : List ℕ)
    → pos + n ≤ length xs
    → Sent wire (rest_of xs pos n) (send_from answers xs pos n wire)
unfolding send_from
send_from-Sent [] xs pos n wire h = elim (Bool-cases (n == 0)) [
  | inl e ↦
      rw e (subst (λ b. Sent wire (rest_of xs pos n) (ret (wire, b))) e (stops xs pos n wire h))
  | inr e ↦ rw e (spins refl)
]
send_from-Sent (send_failed ∷ answers) xs pos n wire h = stops xs pos n wire h
send_from-Sent (send_again ∷ answers) xs pos n wire h = elim (Bool-cases (n == 0)) [
  | inl e ↦
      rw e (subst (λ b. Sent wire (rest_of xs pos n) (ret (wire, b))) e (stops xs pos n wire h))
  | inr e ↦ rw e (send_from-Sent answers xs pos n wire h)
]
send_from-Sent (sends k ∷ answers) xs pos n wire h = elim (Bool-cases (n == 0)) [
  | inl e ↦
      rw e (subst (λ b. Sent wire (rest_of xs pos n) (ret (wire, b))) e (stops xs pos n wire h))
  | inr e ↦ elim (Bool-cases (min k n == 0)) [
    | inl z ↦
        rw (e, z)
          (subst (λ b. Sent wire (rest_of xs pos n) (ret (wire, b))) e (stops xs pos n wire h))
    | inr z ↦
        rw (e, z)
          (takes-Sent xs pos (min k n) n wire _ (omega arith) h (λ out.
            send_from-Sent answers xs (pos + min k n) (n - min k n) (wire ++ out) (omega arith)))
  ]
]

-- A message that lies in its block, and any answers of the kernel: `sendBlock` does not read outside
-- the block; it still asks the kernel when there are no more answers, or it ends, what the kernel has
-- then taken are the first bytes of the message in order, and the answer is 0 exactly if these are
-- all bytes.
pub send_block-Sent :
    (answers : List Send) (msg : Msg)
    → msg.m_len ≤ length (bytes msg.m_data)
    → Sent [] (take msg.m_len (bytes msg.m_data)) (send_block answers msg)
unfolding send_block
send_block-Sent answers msg h =
    send_from-Sent answers (bytes msg.m_data) 0 msg.m_len [] (omega arith)

-- How many answers take a byte at least; an error ends the loop, and counts for none.
abbrev pub progress : List Send → ℕ
progress [] = 0
progress (send_failed ∷ answers) = 0
progress (send_again ∷ answers) = progress answers
progress (sends zero ∷ answers) = 0
progress (sends (suc k) ∷ answers) = suc (progress answers)

all_sent : List ℕ → Outcome (List ℕ × Bool)
all_sent wire = ret (wire, true)

nothing_more :
    (xs : Block) (pos n : ℕ) (wire : List ℕ)
    → n ≡ 0
    → all_sent wire ≡ all_sent (wire ++ rest_of xs pos n)
nothing_more xs pos n wire e = ap all_sent (sym (rw e (append-nil wire)))

takes-all :
    (xs : Block) (pos m n : ℕ) (wire : List ℕ) (go : List ℕ → Outcome (List ℕ × Bool))
    → m ≤ n
    → pos + n ≤ length xs
    → ((out : List ℕ) → go out ≡ all_sent ((wire ++ out) ++ rest_of xs (pos + m) (n - m)))
    → (slice xs pos m >>= go) ≡ all_sent (wire ++ rest_of xs pos n)
unfolding slice
takes-all xs pos m n wire go le h rest = rw (le→leb (pos + m) (length xs) (omega arith)) (
    rest (take m (drop pos xs))
    ∙ ap all_sent
        (append_assoc wire (take m (drop pos xs)) _ ∙ ap (◌++◌ wire) (rest-splits xs pos m n le)))

send_from-all :
    (answers : List Send) (xs : Block) (pos n : ℕ) (wire : List ℕ)
    → pos + n ≤ length xs
    → n ≤ progress answers
    → send_from answers xs pos n wire ≡ all_sent (wire ++ rest_of xs pos n)
unfolding send_from all_sent
send_from-all [] xs pos n wire h p =
    let e : n ≡ 0 = omega arith in (ground arith) ∙ nothing_more xs pos n wire e
send_from-all (send_failed ∷ answers) xs pos n wire h p =
    let e : n ≡ 0 = omega arith in (ground arith) ∙ nothing_more xs pos n wire e
send_from-all (send_again ∷ answers) xs pos n wire h p = elim (Bool-cases (n == 0)) [
  | inl e ↦ rw e (nothing_more xs pos n wire ((==_iff n 0).0 e))
  | inr e ↦ rw e (send_from-all answers xs pos n wire h p)
]
send_from-all (sends zero ∷ answers) xs pos n wire h p =
    let e : n ≡ 0 = omega arith in (ground arith) ∙ nothing_more xs pos n wire e
send_from-all (sends (suc k) ∷ answers) xs pos n wire h p = elim (Bool-cases (n == 0)) [
  | inl e ↦ rw e (nothing_more xs pos n wire ((==_iff n 0).0 e))
  | inr e ↦
      let some_bytes : (min (suc k) n == 0) ≡ false = ground arith in
      rw (e, some_bytes)
        (takes-all xs pos (min (suc k) n) n wire _ (omega arith) h (λ out.
          send_from-all answers xs (pos + min (suc k) n) (n - min (suc k) n) (wire ++ out)
            (omega arith) (ground arith)))
]

-- A message that lies in its block, where the kernel takes a byte at least as often as the message has
-- bytes, before any error: `sendBlock` puts all its bytes out, in order, and answers 0, however often
-- it is told to try again.
pub send_block-all :
    (answers : List Send) (msg : Msg)
    → msg.m_len ≤ length (bytes msg.m_data)
    → msg.m_len ≤ progress answers
    → send_block answers msg ≡ ret (take msg.m_len (bytes msg.m_data), true)
unfolding send_block all_sent
send_block-all answers msg h p =
    send_from-all answers (bytes msg.m_data) 0 msg.m_len [] (omega arith) p
