-- ===== src/Decimal.antt =====
-- `sprintf(s, "%d", v)` and `atoi` of the C library, as src/core/RouterNode.cpp and the readers of the
-- configuration use them. A C string is the list of its bytes before the 0.
use mathlib.Core.List.{append_assoc, append-nil}
use snframe.Base.{
  ℕ, zero, suc, ◌+◌, ◌-◌, ◌*◌, ◌/◌, ◌%◌, ◌^◌, ◌≤◌, ◌<◌, ◌≡◌, ◌≢◌, inl, inr, refl, sym, ap, ◌∙◌,
  Bool, true, ◌&&◌, ◌||◌, ltb→ge, Bool-cases, length-append, ==_iff, lt→ltb, List, [], ◌∷◌, ◌++◌,
  length, ltb, leb, ◌==◌, if◌then◌else◌, arith,
}

-- The digits of a number of at most `n` digits, without zeros in front of it.
unfoldable pub digits : ℕ → ℕ → List ℕ
digits zero v = []
digits (suc n) v =
    let front = digits n (v / 10) in (if v / 10 == 0 then [] else front) ++ (48 + v % 10) ∷ []

-- `%d` of a uint32_t: from 2 ^ 31 on it prints a negative number.
unfoldable pub print_int : ℕ → List ℕ
print_int v = if ltb v (2 ^ 31) then digits 10 v else 45 ∷ digits 10 (2 ^ 32 - v)

abbrev pub is_digit : ℕ → Bool
is_digit c = leb 48 c && leb c 57

-- The digits that a string starts with, behind a number that is read. The sum is that of an int as
-- long as it stays below 2 ^ 31.
unfoldable pub read_digits : ℕ → List ℕ → ℕ
read_digits v [] = v
read_digits v (c ∷ cs) =
    let rest = read_digits (v * 10 + (c - 48)) cs in if is_digit c then rest else v

-- isspace.
abbrev pub is_space : ℕ → Bool
is_space c = c == 32 || (leb 9 c && leb c 13)

unfoldable pub skip_spaces : List ℕ → List ℕ
skip_spaces [] = []
skip_spaces (c ∷ cs) = if is_space c then skip_spaces cs else c ∷ cs

-- A sign, and the digits. A negative number stands for its 32 bits.
unfoldable pub read_signed : List ℕ → ℕ
unfolding read_digits
read_signed [] = 0
read_signed (c ∷ cs) =
    if c == 45
    then (2 ^ 32 - read_digits 0 cs % 2 ^ 32) % 2 ^ 32
    else if c == 43
    then read_digits 0 cs
    else read_digits 0 (c ∷ cs)

unfoldable pub atoi : List ℕ → ℕ
unfolding skip_spaces read_signed
atoi cs = read_signed (skip_spaces cs)

-- A number without its last `k` digits.
abbrev pub tens : ℕ → ℕ → ℕ
tens zero v = v
tens (suc k) v = tens k (v / 10)

digits_step : (v w : ℕ) → v ≡ w / 10 → v * 10 + (48 + w % 10 - 48) ≡ w
digits_step v w h = omega arith

-- Reading the digits gives the number back, with whatever follows.
read-digits :
    (n w : ℕ) (cs : List ℕ) → tens n w ≡ 0 → read_digits 0 (digits n w ++ cs) ≡ read_digits w cs
unfolding digits read_digits
read-digits zero w cs h = rw h refl
read-digits (suc n) w cs h = elim (Bool-cases (w / 10 == 0)) [
  | inl last ↦ ground arith
  | inr more ↦ rw (more, append_assoc, read-digits n (w / 10) ((48 + w % 10) ∷ cs) h) (ground arith)
]

tens-zero : (k : ℕ) → tens k 0 ≡ 0
tens-zero zero = refl
tens-zero (suc k) = tens-zero k

-- How many digits there are.
pub length-digits-le : (n k v : ℕ) → tens (suc k) v ≡ 0 → length (digits n v) ≤ suc k
unfolding digits
length-digits-le zero k v h = omega arith
length-digits-le (suc n) zero v h = ground arith
length-digits-le (suc n) (suc k) v h =
    ground (
      arith,
      length-digits-le n k (v / 10) h,
      length-append (digits n (v / 10)) ((48 + v % 10) ∷ []),
    )

pub length-digits-gt : (n k v : ℕ) → k < n → tens k v ≢ 0 → k < length (digits n v)
unfolding digits
length-digits-gt zero k v lt h = absurd (omega arith)
length-digits-gt (suc n) zero v lt h =
    ground (arith, length-append (digits n (v / 10)) ((48 + v % 10) ∷ []))
length-digits-gt (suc n) (suc k) v lt h = elim (Bool-cases (v / 10 == 0)) [
  | inl e ↦ absurd (h (rw ((==_iff (v / 10) 0).0 e) (tens-zero k)))
  | inr e ↦ rw (e, length-append) (omega (arith, length-digits-gt n k (v / 10) (omega arith) h))
]

abbrev starts_digit : List ℕ → Bool
starts_digit [] = true
starts_digit (c ∷ cs) = is_digit c

starts-append :
    (xs : List ℕ) (c : ℕ)
    → starts_digit xs ≡ true
    → is_digit c ≡ true
    → starts_digit (xs ++ c ∷ []) ≡ true
starts-append [] c h k = k
starts-append (x ∷ xs) c h k = h

digits-starts : (n v : ℕ) → starts_digit (digits n v) ≡ true
unfolding digits
digits-starts zero v = refl
digits-starts (suc n) v = elim (Bool-cases (v / 10 == 0)) [
  | inl e ↦ rw e (ground arith)
  | inr e ↦
      rw e
        (starts-append (digits n (v / 10)) (48 + v % 10) (digits-starts n (v / 10)) (ground arith))
]

atoi-digits : (cs : List ℕ) → starts_digit cs ≡ true → atoi cs ≡ read_digits 0 cs
unfolding atoi read_digits
atoi-digits [] h = refl
atoi-digits (c ∷ cs) h = ground arith

read_all : (v : ℕ) → v < 2 ^ 32 → read_digits 0 (digits 10 v) ≡ v
read_all v h =
    ap (read_digits 0) (sym (append-nil (digits 10 v)))
    ∙ read-digits 10 v [] (omega arith)
    ∙ unfold read_digits in refl

-- `atoi` reads back the 32 bits of what `%d` prints, whatever the sign.
pub atoi-print : (v : ℕ) → v < 2 ^ 32 → atoi (print_int v) ≡ v
unfolding print_int
atoi-print v h = elim (Bool-cases (ltb v (2 ^ 31))) [
  | inl below ↦ rw below (atoi-digits (digits 10 v) (digits-starts 10 v) ∙ read_all v h)
  | inr above ↦ rw above (
      unfold atoi in
      rw (read_all (2 ^ 32 - v) (omega (arith, ltb→ge v (2 ^ 31) above)))
        (omega (arith, ltb→ge v (2 ^ 31) above)))
]

-- `%d` prints nine characters at most of a number below 10 ^ 9.
pub print-short : (v : ℕ) → v < 10 ^ 9 → length (print_int v) ≤ 9
unfolding print_int
print-short v h = rw (lt→ltb v (2 ^ 31) (omega arith)) (length-digits-le 10 8 v (omega arith))

-- Between 10 ^ 9 and 2 ^ 32 - 10 ^ 8 it prints ten at least, the sign included.
pub print-long : (v : ℕ) → 10 ^ 9 ≤ v → v ≤ 2 ^ 32 - 10 ^ 8 → 10 ≤ length (print_int v)
unfolding print_int
print-long v lo hi = elim (Bool-cases (ltb v (2 ^ 31))) [
  | inl below ↦ rw below (length-digits-gt 10 9 v (omega arith) (high v lo))
  | inr above ↦ rw above (
      omega
        (arith, length-digits-gt 10 8 (2 ^ 32 - v) (omega arith) (low (2 ^ 32 - v) (omega arith))))
]
  where
    high : (w : ℕ) → 10 ^ 9 ≤ w → tens 9 w ≢ 0
    high w k e = omega arith

    low : (w : ℕ) → 10 ^ 8 ≤ w → tens 8 w ≢ 0
    low w k e = omega arith
