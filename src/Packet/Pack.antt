-- ===== src/Packet/Pack.antt =====
-- The stores that `set_data` and `set_pb` of src/base/PbBuf.cpp have in common, as one function of the
-- block and the body.
use snframe.Base.{
  ℕ, ◌+◌, ◌^◌, ◌≤◌, ◌<◌, ◌≡◌, refl, ◌∙◌, ap, List, [], ◌∷◌, length, take, drop, length-take,
  length-drop, get_or, get_or-take, get_or-drop, list_ext, le→leb, arith, ret,
}
use snframe.Memory.{
  Block, byte, put, poke, slice, le16, htons, length-put, byte-put_other, byte-put_self, poke-put,
}
use snframe.Packet.{seal}
use snframe.Packet.Fields.{header, SameTag, header-put_len, header-put_check, header-put_body}
use snframe.Packet.Seal.{checksum, checksum-put_check, seal_lem, put-IsSealed, IsSealed}

-- The block after the length is stored, after the body, and after the check byte.
abbrev pub with_length : Block → List ℕ → Block
with_length xs body = put xs 24 (le16 (htons (length body)))

abbrev pub with_body : Block → List ℕ → Block
with_body xs body = put (with_length xs body) 27 body

unfoldable pub packed : Block → List ℕ → Block
packed xs body = put (with_body xs body) 26 (checksum (with_body xs body) (length body) ∷ [])

pub length-with_length : (xs : Block) (body : List ℕ) → length (with_length xs body) ≡ length xs
length-with_length xs body = length-put xs 24 (le16 (htons (length body)))

pub length-with_body : (xs : Block) (body : List ℕ) → length (with_body xs body) ≡ length xs
length-with_body xs body = length-put (with_length xs body) 27 body ∙ length-with_length xs body

module _ (xs : Block) (body : List ℕ) (room : 27 + length body ≤ length xs) where
  -- The header but for length and check byte is kept, the body stands behind it, and the check byte
  -- fits.
  pub length-packed : length (packed xs body) ≡ length xs
  unfolding packed
  length-packed = grind (arith, length-put)

  pub header-packed :
      length body < 2 ^ 16
      → header (packed xs body)
        ≡ record (header xs) { len = length body; check = checksum (packed xs body) (length body) }
  unfolding packed
  header-packed f =
      let b = with_body xs body in
      rw (
        header-put_check b (checksum b (length body)) (omega (arith, length-with_body xs body)),
        header-put_body (with_length xs body) body,
        header-put_len xs (length body) (omega arith) f,
        checksum-put_check b (checksum b (length body)) (length body),
      )

  pub packed-SameTag : SameTag (packed xs body) xs
  unfolding packed
  packed-SameTag = (grind (arith, byte-put_other), grind (arith, byte-put_other))

  pub byte-packed : (j : ℕ) → j < length body → byte (packed xs body) (27 + j) ≡ byte body j
  unfolding packed
  byte-packed j h =
      byte-put_other (with_body xs body) 26 _ (27 + j) (omega arith)
      ∙ byte-put_self (with_length xs body) 27 body j (27 + j) refl h
          (omega (arith, length-with_length xs body))

  pub packed-IsSealed : IsSealed (packed xs body) (length body)
  unfolding packed
  packed-IsSealed =
      put-IsSealed (with_body xs body) (length body) (omega (arith, length-with_body xs body))

  -- The three stores succeed, for a body that is not empty.
  pub pack_steps :
      (n : ℕ)
      → n ≡ length body
      → 1 ≤ n
      → (poke xs 24 (le16 (htons n)) ≡ ret (with_length xs body))
        × (poke (with_length xs body) 27 body ≡ ret (with_body xs body))
        × (seal (with_body xs body) n ≡ ret (packed xs body))
  unfolding packed
  pack_steps n e h = rw e (
    poke-put xs 24 (le16 (htons (length body))) (omega arith),
    poke-put (with_length xs body) 27 body (omega (arith, length-with_length xs body)),
    seal_lem (with_body xs body) (length body) (omega (arith, length-with_body xs body))
        (omega (arith, length-with_body xs body)),
  )

  pub slice-packed : slice (packed xs body) 27 (length body) ≡ ret body
  unfolding slice
  slice-packed =
      rw (le→leb (27 + length body) (length (packed xs body)) (omega (arith, length-packed)))
        (ap ret (list_ext _ body 0 sizes same))
    where
      sizes : length (take (length body) (drop 27 (packed xs body))) ≡ length body
      sizes = omega (
        arith,
        length-packed,
        length-take (length body) (drop 27 (packed xs body)),
        length-drop 27 (packed xs body),
      )

      same :
          (j : ℕ)
          → j < length body
          → get_or (take (length body) (drop 27 (packed xs body))) j 0 ≡ get_or body j 0
      same j h =
          get_or-take (drop 27 (packed xs body)) (length body) j 0 h
          ∙ get_or-drop (packed xs body) 27 j 0
          ∙ byte-packed j h
