-- ===== src/Packet/Body.antt =====
-- The writers of the body in src/base/PbBuf.cpp, `set_data` and `set_pb`: the packets they make, and
-- where they leave the block.
use mathlib.Core.Path.{subst}
use snframe.Base.{
  ℕ, ◌+◌, ◌-◌, ◌%◌, ◌^◌, ◌≤◌, ◌<◌, ◌≡◌, refl, sym, Bool, true, some, List, length, take,
  length-take, arith, le→leb, ==_iff, ret, fault,
}
use snframe.Memory.{Block, put, slice, le16, htons, length-put, poke-put, poke-fault}
use snframe.Packet.{Msg, MessageLite, check, store_data, set_pb}
use snframe.Packet.Fields.{CommonHeader, header, SameTag}
use snframe.Packet.Seal.{checksum, check_lem}
use snframe.Packet.Pack.{
  packed, length-packed, header-packed, packed-IsSealed, pack_steps, slice-packed, packed-SameTag,
}

-- The message is a whole packet with header `h` and this body: the block holds the header with the
-- length and the check byte of the body, the body stands behind it, and the packet passes `check`.
pub record IsPacket (m : Msg) (h : CommonHeader) (body : List ℕ) : Type 0 where
  pub block : Block
  pub held : m.m_data ≡ some block
  pub size : m.m_len ≡ 27 + length body
  pub fits : m.m_len ≤ length block
  pub head : header block ≡ record h { len = length body; check = checksum block (length body) }
  pub content : slice block 27 (length body) ≡ ret body
  pub passes : check m ≡ ret true

packed_packet :
    (m : Msg) (xs : Block) (body : List ℕ)
    → 27 + length body ≤ length xs
    → 1 ≤ length body
    → length body < 2 ^ 16
    → m.m_data ≡ some (packed xs body)
    → m.m_len ≡ 27 + length body
    → (p : IsPacket m (header xs) body) × (p.block ≡ packed xs body)
packed_packet m xs body room some_body small held size = (
  record {
    block = packed xs body;
    held = held;
    size = size;
    fits = omega (arith, length-packed xs body room);
    head = header-packed xs body room small;
    content = slice-packed xs body room;
    passes = rw (
      check_lem m (packed xs body) held (omega arith) (omega (arith, length-packed xs body room)),
      rest,
      packed-IsSealed xs body room,
      (==_iff _ _).1 refl,
    );
  },
  refl,
)
  where
    rest : m.m_len - 27 ≡ length body
    rest = omega arith

pub packed-IsPacket :
    (m : Msg) (xs : Block) (body : List ℕ)
    → 27 + length body ≤ length xs
    → 1 ≤ length body
    → length body < 2 ^ 16
    → m.m_data ≡ some (packed xs body)
    → m.m_len ≡ 27 + length body
    → IsPacket m (header xs) body
packed-IsPacket m xs body room some_body small held size =
    (packed_packet m xs body room some_body small held size).0

-- `set_pb` on a block with room for header and body, for a body of 1 to 65508 bytes that the message
-- serialises to at its own size: it answers true, and the message is then a packet with the old
-- header, its tag included, and that body.
pub set_pb-IsPacket :
    (msg : Msg) (xs : Block) (pb : MessageLite) (body : List ℕ)
    → msg.m_data ≡ some xs
    → pb.serialize_to_array pb.byte_size ≡ some body
    → length body ≡ pb.byte_size
    → 1 ≤ pb.byte_size
    → pb.byte_size + 27 < 2 ^ 16
    → pb.byte_size + 27 ≤ length xs
    → (m : Msg) × (set_pb msg pb ≡ ret (m, true))
      × (p : IsPacket m (header xs) body) × SameTag p.block xs
unfolding set_pb
set_pb-IsPacket msg xs pb body e s l lo hi room =
    let m = record msg { m_data = some (packed xs body); m_len = length body + 27 } in
    let (p, same_block) =
      packed_packet m xs body (omega arith) (omega arith) (omega arith) refl (omega arith) in
    (
      m,
      runs,
      p,
      subst (λ ys. SameTag ys xs) (sym same_block) (packed-SameTag xs body (omega arith)),
    )
  where
    same : pb.byte_size % 2 ^ 16 ≡ length body
    same = omega arith

    total : (pb.byte_size + 27) % 2 ^ 16 ≡ length body + 27
    total = omega arith

    runs :
        set_pb msg pb
        ≡ ret (record msg { m_data = some (packed xs body); m_len = length body + 27 }, true)
    runs =
        rw (e, same, s, total)
          (ground (arith, pack_steps xs body (omega arith) pb.byte_size (sym l) lo, l))

-- `store_data` into a block with room, and into one without.
module _ (m : Msg) (done : Bool) (ys : Block) (src : List ℕ) (len total : ℕ) where
  pub store_data-packed :
      m.m_data ≡ some ys
      → len ≤ length src
      → 1 ≤ len
      → 27 + len ≤ length ys
      → store_data (m, done) (some src) len total
        ≡ ret (record m { m_data = some (packed ys (take len src)); m_len = total }, true)
  unfolding store_data slice
  store_data-packed e enough lo room =
      rw (e, le→leb (0 + len) (length src) (omega arith))
        (ground (arith, pack_steps ys (take len src) (omega (arith, size)) len (sym size) lo))
    where
      size : length (take len src) ≡ len
      size = omega (arith, length-take len src)

  pub store_data-fault :
      m.m_data ≡ some ys
      → len ≤ length src
      → length ys < 27 + len
      → store_data (m, done) (some src) len total ≡ fault
  unfolding store_data slice
  store_data-fault e enough short =
      rw (e, le→leb (0 + len) (length src) (omega arith))
        (ground (
          arith,
          length-take len src,
          poke-put ys 24 (le16 (htons len)),
          poke-fault ys 24 (le16 (htons len)),
          length-put ys 24 (le16 (htons len)),
          poke-fault (put ys 24 (le16 (htons len))) 27 (take len src),
        ))
