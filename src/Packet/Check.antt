-- ===== src/Packet/Check.antt =====
-- `check` and `set_checksum` of src/base/PbBuf.cpp: what the check byte detects, what `set_checksum`
-- restores, and the byte that is read behind a packet with no body.
use Prim.Native.Nat.{bit_xor}
use snframe.Base.{
  ℕ, zero, suc, ◌+◌, ◌-◌, ◌%◌, ◌^◌, ◌≤◌, ◌<◌, ◌≡◌, ◌≢◌, refl, sym, ◌∙◌, ◌⊎◌, inl, inr, true, false,
  some, [], ◌∷◌, length, set, length-set, get_or-set_self, get_or-set_ne, arith, le→ltb, ==_iff,
  ret, fault, ◌>>=◌,
}
use native.Mathlib.Decide.{ℕ_discrete, dec_lt}
use snframe.Base.Xor.{bit_xor_cancel_left, bit_xor_cancel_right}
use snframe.Memory.{
  Block, byte, put, le16, htons, length-put, poke-put, byte-put_other, byte-put_self,
}
use snframe.Packet.{Msg, check, set_checksum}
use snframe.Packet.Fields.{header, header-put_len, header-put_check}
use snframe.Packet.Seal.{
  xor_all, xor_all-cong, checksum, check_lem, check_byte-fault, seal_lem, put-IsSealed,
}

-- A difference in the accumulator survives the loop.
xor_all_cancel : (c d : ℕ) (xs : Block) (i n : ℕ) → xor_all c xs i n ≡ xor_all d xs i n → c ≡ d
unfolding xor_all
xor_all_cancel c d xs i zero e = e
xor_all_cancel c d xs i (suc n) e =
    bit_xor_cancel_right c d (byte xs i)
      (xor_all_cancel (bit_xor c (byte xs i)) (bit_xor d (byte xs i)) xs (suc i) n e)

-- `ys` is `xs` with another byte at `k`.
record Flipped (xs ys : Block) (k : ℕ) : Type 0 where
  changed : byte ys k ≢ byte xs k
  others : (j : ℕ) → j ≢ k → byte ys j ≡ byte xs j

xor_all_flip :
    (c : ℕ) (xs ys : Block) (k i n : ℕ)
    → Flipped xs ys k
    → i ≤ k
    → k < i + n
    → xor_all c ys i n ≢ xor_all c xs i n
unfolding xor_all
xor_all_flip c xs ys k i zero f lo hi = absurd (omega arith)
xor_all_flip c xs ys k i (suc n) f lo hi = elim (ℕ_discrete i k) [
  | yes here ↦ λ e.
      let rest : xor_all (bit_xor c (byte ys i)) xs (suc i) n
          ≡ xor_all (bit_xor c (byte xs i)) xs (suc i) n =
        sym
          (xor_all-cong (bit_xor c (byte ys i)) ys xs (suc i) n (λ j p q. f.others j (omega arith)))
        ∙ e in
      f.changed (
        rw here at
          (bit_xor_cancel_left (byte ys i) (byte xs i) c (xor_all_cancel _ _ xs (suc i) n rest)))
  | no later ↦
      rw (f.others i later)
        (xor_all_flip (bit_xor c (byte xs i)) xs ys k (suc i) n f (omega arith) (omega arith))
]

-- The places that the check byte of a body of `len` bytes covers.
abbrev Covered : ℕ → ℕ → Type 0
Covered k len = (k ≡ 24) ⊎ (k ≡ 25) ⊎ ((27 ≤ k) × (k < 27 + len))

-- The three bytes that are summed before the loop.
abbrev first_three : Block → ℕ
first_three xs = bit_xor (bit_xor (byte xs 24) (byte xs 25)) (byte xs 27)

first_three_flip :
    (xs ys : Block) (k len : ℕ)
    → Flipped xs ys k
    → k < 28
    → Covered k len
    → first_three ys ≢ first_three xs
first_three_flip xs ys k len f low (inl e) p = f.changed (
    rw e (
      bit_xor_cancel_right _ _ (byte xs 25) (
        bit_xor_cancel_right _ _ (byte xs 27)
          (rw (f.others 25 (omega arith), f.others 27 (omega arith)) at p))))
first_three_flip xs ys k len f low (inr (inl e)) p = f.changed (
    rw e (
      bit_xor_cancel_left _ _ (byte xs 24) (
        bit_xor_cancel_right _ _ (byte xs 27)
          (rw (f.others 24 (omega arith), f.others 27 (omega arith)) at p))))
first_three_flip xs ys k len f low (inr (inr (lo, hi))) p =
    let e : k ≡ 27 = omega arith in
    f.changed (
      rw e (
        bit_xor_cancel_left _ _ (bit_xor (byte xs 24) (byte xs 25))
          (rw (f.others 24 (omega arith), f.others 25 (omega arith)) at p)))

checksum_flip :
    (xs ys : Block) (k len : ℕ)
    → Flipped xs ys k
    → Covered k len
    → checksum ys len ≢ checksum xs len
unfolding checksum
checksum_flip xs ys k len f cov = elim (dec_lt k 28) [
  | yes low ↦ λ e. first_three_flip xs ys k len f low cov (
      xor_all_cancel _ _ xs 28 (len - 1) (
        sym (xor_all-cong (first_three ys) ys xs 28 (len - 1) (λ j p q. f.others j (omega arith)))
        ∙ e))
  | no high ↦
      rw (f.others 24 (omega arith), f.others 25 (omega arith), f.others 27 (omega arith))
        (xor_all_flip (first_three xs) xs ys k 28 (len - 1) f (omega arith) (omega arith))
]

-- One changed byte among the length field and the body of a packet that passes `check` makes it fail.
pub check_detects :
    (msg : Msg) (xs : Block) (k v : ℕ)
    → msg.m_data ≡ some xs
    → 27 < msg.m_len
    → msg.m_len ≤ length xs
    → check msg ≡ ret true
    → (k ≡ 24) ⊎ (k ≡ 25) ⊎ ((27 ≤ k) × (k < msg.m_len))
    → v ≢ byte xs k
    → check (record msg { m_data = some (set xs k v) }) ≡ ret false
check_detects msg xs k v e lo hi passes cov new =
    check_lem (record msg { m_data = some (set xs k v) }) (set xs k v) refl lo
      (omega (arith, length-set xs k v))
    ∙ ground (arith, kept, old, differs)
  where
    old : byte xs 26 ≡ checksum xs (msg.m_len - 27)
    old = ground (arith, check_lem msg xs e lo hi)

    kept : byte (set xs k v) 26 ≡ byte xs 26
    kept = get_or-set_ne xs k 26 v 0 (omega arith)

    differs : checksum (set xs k v) (msg.m_len - 27) ≢ checksum xs (msg.m_len - 27)
    differs =
        checksum_flip xs (set xs k v) k (msg.m_len - 27)
          (record {
            changed = λ p. new (sym (get_or-set_self xs k v 0 (omega arith)) ∙ p);
            others = λ j q. get_or-set_ne xs k j v 0 (omega arith);
          })
          (omega arith)

-- `set_checksum` on a packet with a body of 1 to 65535 bytes answers true, keeps all bytes but the
-- length field and the check byte, stores the length, and makes the packet pass `check`.
pub set_checksum-check :
    (msg : Msg) (xs : Block)
    → msg.m_data ≡ some xs
    → 27 < msg.m_len
    → msg.m_len ≤ length xs
    → msg.m_len - 27 < 2 ^ 16
    → (ys : Block) × (set_checksum msg ≡ ret (record msg { m_data = some ys }, true))
      × (header ys ≡ record (header xs) { len = msg.m_len - 27; check = byte ys 26 })
      × ((j : ℕ) → 27 ≤ j → byte ys j ≡ byte xs j)
      × (check (record msg { m_data = some ys }) ≡ ret true)
unfolding set_checksum
set_checksum-check msg xs e lo hi small = (
  ys,
  rw (
    le→ltb msg.m_len 27 (omega arith),
    e,
    small',
    poke-put xs 24 (le16 (htons len)) (omega arith),
    ◌>>=◌,
    seal_lem a len (omega (arith, same_length)) (omega (arith, same_length)),
  ),
  rw (
    header-put_check a (checksum a len) (omega (arith, same_length)),
    header-put_len xs len (omega arith) small,
    byte-put_self a 26 (checksum a len ∷ []) 0 26 refl (omega arith) (omega (arith, same_length)),
  ),
  (λ j k.
      byte-put_other a 26 (checksum a len ∷ []) j (omega arith)
      ∙ byte-put_other xs 24 (le16 (htons len)) j (omega arith)),
  rw (
    check_lem (record msg { m_data = some ys }) ys refl lo
        (omega (arith, same_length, length-put a 26 (checksum a len ∷ []))),
    put-IsSealed a len (omega (arith, same_length)),
    (==_iff _ _).1 refl,
  ),
)
  where
    len : ℕ
    len = msg.m_len - 27

    small' : (msg.m_len - 27) % 2 ^ 16 ≡ msg.m_len - 27
    small' = omega arith

    a : Block
    a = put xs 24 (le16 (htons len))

    ys : Block
    ys = put a 26 (checksum a len ∷ [])

    same_length : length a ≡ length xs
    same_length = length-put xs 24 (le16 (htons len))

-- A packet of 27 bytes in a block of 27: `check` reads the byte behind the block.
pub check-fault :
    (msg : Msg) (xs : Block) → msg.m_data ≡ some xs → length xs ≡ 27 → check msg ≡ fault
unfolding check
check-fault msg xs e h = rw (e, check_byte-fault xs (msg.m_len - 27) h)
