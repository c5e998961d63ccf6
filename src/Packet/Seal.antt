-- ===== src/Packet/Seal.antt =====
-- The check byte: what the checksum loop of src/base/PbBuf.cpp computes, when it leaves the block, and
-- that a sealed packet passes `check`.
use Prim.Native.Nat.{bit_xor}
use snframe.Base.{
  ℕ, zero, suc, ◌+◌, ◌-◌, ◌≤◌, ◌<◌, ◌≡◌, refl, some, [], ◌∷◌, length, arith, ◌==◌, ret, fault,
  ◌>>=◌,
}
use snframe.Memory.{
  Block, byte, put, byte-put_other, byte-put_self, peek8-byte, poke-put, peek8-fault,
}
use snframe.Packet.{Msg, xor_bytes, check_byte, seal, check}

-- The exclusive or of `c` and of the `n` bytes from `i` on.
unfoldable pub xor_all : ℕ → Block → ℕ → ℕ → ℕ
xor_all c xs i zero = c
xor_all c xs i (suc n) = xor_all (bit_xor c (byte xs i)) xs (suc i) n

-- The check byte of a body of `len` bytes, for `len` at least 1: both bytes of the length field, and
-- the body.
unfoldable pub checksum : Block → ℕ → ℕ
checksum xs len = xor_all (bit_xor (bit_xor (byte xs 24) (byte xs 25)) (byte xs 27)) xs 28 (len - 1)

xor_bytes-xor_all :
    (c : ℕ) (xs : Block) (i n : ℕ) → i + n ≤ length xs → xor_bytes c xs i n ≡ ret (xor_all c xs i n)
unfolding xor_bytes xor_all
xor_bytes-xor_all c xs i zero h = refl
xor_bytes-xor_all c xs i (suc n) h =
    rw (peek8-byte xs i (omega arith))
      (xor_bytes-xor_all (bit_xor c (byte xs i)) xs (suc i) n (omega arith))

pub check_byte-checksum :
    (xs : Block) (len : ℕ)
    → 28 ≤ length xs
    → 27 + len ≤ length xs
    → check_byte xs len ≡ ret (checksum xs len)
unfolding check_byte checksum
check_byte-checksum xs len h f =
    rw
      (
        peek8-byte xs 24 (omega arith),
        peek8-byte xs 25 (omega arith),
        peek8-byte xs 27 (omega arith),
      )
      (xor_bytes-xor_all _ xs 28 (len - 1) (omega arith))

-- A block with no byte behind its header: the loop reads one all the same.
pub check_byte-fault : (xs : Block) (len : ℕ) → length xs ≡ 27 → check_byte xs len ≡ fault
unfolding check_byte
check_byte-fault xs len h = rw (
  peek8-byte xs 24 (omega arith),
  peek8-byte xs 25 (omega arith),
  peek8-fault xs 27 (omega arith),
)

pub xor_all-cong :
    (c : ℕ) (xs ys : Block) (i n : ℕ)
    → ((j : ℕ) → i ≤ j → j < i + n → byte xs j ≡ byte ys j)
    → xor_all c xs i n ≡ xor_all c ys i n
unfolding xor_all
xor_all-cong c xs ys i zero h = refl
xor_all-cong c xs ys i (suc n) h = rw (h i (omega arith) (omega arith)) (
    xor_all-cong (bit_xor c (byte ys i)) xs ys (suc i) n (λ j p q. h j (omega arith) (omega arith)))

-- The check byte's own place is not summed.
pub checksum-put_check :
    (xs : Block) (c len : ℕ) → checksum (put xs 26 (c ∷ [])) len ≡ checksum xs len
unfolding checksum
checksum-put_check xs c len =
    rw
      (
        byte-put_other xs 26 (c ∷ []) 24 (omega arith),
        byte-put_other xs 26 (c ∷ []) 25 (omega arith),
        byte-put_other xs 26 (c ∷ []) 27 (omega arith),
      )
      (xor_all-cong _ (put xs 26 (c ∷ [])) xs 28 (len - 1)
        (λ j p q. byte-put_other xs 26 (c ∷ []) j (omega arith)))

-- The block carries the check byte of a body of `len` bytes.
abbrev pub IsSealed : Block → ℕ → Type 0
IsSealed xs len = byte xs 26 ≡ checksum xs len

pub seal_lem :
    (xs : Block) (len : ℕ)
    → 28 ≤ length xs
    → 27 + len ≤ length xs
    → seal xs len ≡ ret (put xs 26 (checksum xs len ∷ []))
unfolding seal
seal_lem xs len h f =
    rw (check_byte-checksum xs len h f, ◌>>=◌) (poke-put xs 26 (checksum xs len ∷ []) (omega arith))

pub put-IsSealed :
    (xs : Block) (len : ℕ) → 27 ≤ length xs → IsSealed (put xs 26 (checksum xs len ∷ [])) len
put-IsSealed xs len h = rw (
  byte-put_self xs 26 (checksum xs len ∷ []) 0 26 refl (omega arith) (omega arith),
  checksum-put_check xs (checksum xs len) len,
)

-- On a whole packet with a body, `check` answers whether the packet carries its check byte.
pub check_lem :
    (msg : Msg) (xs : Block)
    → msg.m_data ≡ some xs
    → 27 < msg.m_len
    → msg.m_len ≤ length xs
    → check msg ≡ ret (byte xs 26 == checksum xs (msg.m_len - 27))
unfolding check
check_lem msg xs e h f = rw (
  e,
  check_byte-checksum xs (msg.m_len - 27) (omega arith) (omega arith),
  peek8-byte xs 26 (omega arith),
)
