-- ===== src/Base/Xor.antt =====
-- Exclusive or on numbers of any size: one equation for the lowest digit, and cancellation.
use Prim.Native.Nat.{
  ℕ, zero, suc, ◌+◌, ◌*◌, ◌/◌, ◌%◌, ◌≤◌, ◌<◌, bit_xor, digits, differ, bit_xor-bitwise,
}
use mathlib.Core.Path.{◌≡◌, refl}
use native.Mathlib.Omega.{arith}

abbrev xor_digits : ℕ → ℕ → ℕ → ℕ
xor_digits n a b = digits (λ y. y) differ n a b

xor_digits_fuel : (n m a b : ℕ) → a ≤ n → a ≤ m → xor_digits n a b ≡ xor_digits m a b
xor_digits_fuel zero zero a b p q = refl
xor_digits_fuel zero (suc m) zero b p q = refl
xor_digits_fuel zero (suc m) (suc a) b p q = absurd (omega arith)
xor_digits_fuel (suc n) zero zero b p q = refl
xor_digits_fuel (suc n) zero (suc a) b p q = absurd (omega arith)
xor_digits_fuel (suc n) (suc m) zero b p q = refl
xor_digits_fuel (suc n) (suc m) (suc a) b p q =
    omega (arith, xor_digits_fuel n m (suc a / 2) (b / 2) (omega arith) (omega arith))

zero-bit_xor : (b : ℕ) → bit_xor 0 b ≡ b
zero-bit_xor b = bit_xor-bitwise 0 b

differ_zero : (b : ℕ) → b < 2 → differ 0 b ≡ b
differ_zero zero h = refl
differ_zero (suc b) h = refl

bit_xor_step : (a b : ℕ) → bit_xor a b ≡ bit_xor (a / 2) (b / 2) * 2 + differ (a % 2) (b % 2)
bit_xor_step zero b =
    omega (arith, zero-bit_xor b, zero-bit_xor (b / 2), differ_zero (b % 2) (omega arith))
bit_xor_step (suc a) b = omega (
  arith,
  bit_xor-bitwise (suc a) b,
  bit_xor-bitwise (suc a / 2) (b / 2),
  xor_digits_fuel a (suc a / 2) (suc a / 2) (b / 2) (omega arith) (omega arith),
)

differ-lt_two : (x y : ℕ) → x < 2 → y < 2 → differ x y < 2
differ-lt_two zero y h k = k
differ-lt_two (suc x) zero h k = h
differ-lt_two (suc x) (suc y) h k = differ-lt_two x y (omega arith) (omega arith)

differ_cancel_right : (x y z : ℕ) → x < 2 → y < 2 → z < 2 → differ x z ≡ differ y z → x ≡ y
differ_cancel_right zero zero z h k l e = refl
differ_cancel_right zero (suc y) zero h k l e = e
differ_cancel_right zero (suc zero) (suc z) h k l e = absurd (omega (arith, e))
differ_cancel_right zero (suc (suc y)) (suc z) h k l e = absurd (omega arith)
differ_cancel_right (suc x) zero zero h k l e = e
differ_cancel_right (suc zero) zero (suc z) h k l e = absurd (omega (arith, e))
differ_cancel_right (suc (suc x)) zero (suc z) h k l e = absurd (omega arith)
differ_cancel_right (suc x) (suc y) z h k l e = omega arith

differ_comm : (x y : ℕ) → differ x y ≡ differ y x
differ_comm zero zero = refl
differ_comm zero (suc y) = refl
differ_comm (suc x) zero = refl
differ_comm (suc x) (suc y) = differ_comm x y

bit_xor_cancel_right_fuel : (n a b c : ℕ) → a ≤ n → b ≤ n → bit_xor a c ≡ bit_xor b c → a ≡ b
bit_xor_cancel_right_fuel zero a b c h k e = omega arith
bit_xor_cancel_right_fuel (suc n) a b c h k e =
    let low : a % 2 ≡ b % 2 =
      differ_cancel_right (a % 2) (b % 2) (c % 2) (omega arith) (omega arith) (omega arith) (
        omega (
          arith,
          bit_xor_step a c,
          bit_xor_step b c,
          differ-lt_two (a % 2) (c % 2),
          differ-lt_two (b % 2) (c % 2),
        )) in
    let high : a / 2 ≡ b / 2 =
      bit_xor_cancel_right_fuel n (a / 2) (b / 2) (c / 2) (omega arith) (omega arith) (
        omega (
          arith,
          bit_xor_step a c,
          bit_xor_step b c,
          differ-lt_two (a % 2) (c % 2),
          differ-lt_two (b % 2) (c % 2),
        )) in
    omega arith

pub bit_xor_cancel_right : (a b c : ℕ) → bit_xor a c ≡ bit_xor b c → a ≡ b
bit_xor_cancel_right a b c = bit_xor_cancel_right_fuel (a + b) a b c (omega arith) (omega arith)

bit_xor_comm_fuel : (n a b : ℕ) → a ≤ n → b ≤ n → bit_xor a b ≡ bit_xor b a
bit_xor_comm_fuel zero zero zero h k = refl
bit_xor_comm_fuel zero zero (suc b) h k = absurd (omega arith)
bit_xor_comm_fuel zero (suc a) b h k = absurd (omega arith)
bit_xor_comm_fuel (suc n) a b h k = omega (
  arith,
  bit_xor_step a b,
  bit_xor_step b a,
  differ_comm (a % 2) (b % 2),
  bit_xor_comm_fuel n (a / 2) (b / 2) (omega arith) (omega arith),
)

pub bit_xor_comm : (a b : ℕ) → bit_xor a b ≡ bit_xor b a
bit_xor_comm a b = bit_xor_comm_fuel (a + b) a b (omega arith) (omega arith)

pub bit_xor_cancel_left : (a b c : ℕ) → bit_xor c a ≡ bit_xor c b → a ≡ b
bit_xor_cancel_left a b c e =
    bit_xor_cancel_right a b c (omega (arith, e, bit_xor_comm c a, bit_xor_comm c b))
