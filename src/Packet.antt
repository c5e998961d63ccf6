-- ===== src/Packet.antt =====
-- src/base/PbBuf.cpp and src/base/IMString.cpp: the packet buffer `msg_t` (a block, its length and its
-- capacity), and the functions that allocate it, write its header and its body, and read it.
-- The answer of malloc and realloc is an argument: whether the block is granted, and, of realloc,
-- the unset bytes behind the old ones.
pub mod Header
pub mod Fields
pub mod Readers
pub mod Seal
pub mod Pack
pub mod Body
pub mod Data
pub mod Check
pub mod Tests
use Prim.Native.Nat.{bit_xor}
use snframe.Base.{
  ℕ, zero, suc, ◌+◌, ◌-◌, ◌*◌, ◌/◌, ◌%◌, ◌^◌, Bool, true, false, ◌&&◌, Option, none, some, List, [],
  ◌∷◌, ◌++◌, length, take, ltb, leb, ◌==◌, if◌then◌else◌, Outcome, ret, fault, stuck, ◌>>=◌,
}
use snframe.Memory.{Block, zeros, peek8, peek16, peek32, poke, slice, le16, le32, htons, htonl}

-- `m_data` is NULL or a block.
pub record Msg : Type 0 where
  pub m_data : Option Block
  pub m_len : ℕ
  pub m_alloc : ℕ

abbrev pub null_msg : Msg
null_msg = record { m_data = none; m_len = 0; m_alloc = 0 }

abbrev pub head_len : ℕ
head_len = 27

abbrev buf_size : ℕ
buf_size = 128

-- `IMString::operator=` from another object: the block changes hands, the lengths are copied.
-- The first part is the new value of the left side, the second that of the right.
unfoldable pub assign : Msg → Msg × Msg
assign rhs = (rhs, record rhs { m_data = none })

-- `bufalloc` overwrites all three fields, whatever the message held.
unfoldable pub bufalloc : Bool → ℕ → Msg × Bool
bufalloc granted len =
    if granted
    then (record { m_data = some (zeros len); m_len = 0; m_alloc = len }, true)
    else (null_msg, false)

pub init : Bool → Msg × Bool
unfolding bufalloc
init granted = bufalloc granted buf_size

-- The answer of realloc: NULL, or what the bytes behind the old ones hold.
abbrev pub Realloc : Type 0
Realloc = Option (ℕ → ℕ)

pub fresh : ℕ → ℕ → (ℕ → ℕ) → List ℕ
fresh i zero junk = []
fresh i (suc k) junk = junk i ∷ fresh (suc i) k junk

abbrev pub bytes : Option Block → Block
bytes none = []
bytes (some xs) = xs

unfoldable pub resize : Realloc → Msg → ℕ → Msg × Bool
unfolding fresh
resize answer msg new_length = if leb new_length msg.m_alloc then (msg, true) else elim answer [
  | none ↦ (msg, false)
  | some junk ↦ (
    record msg {
      m_data = some (
          bytes msg.m_data
          ++ fresh (length (bytes msg.m_data)) (new_length - length (bytes msg.m_data)) junk);
      m_alloc = new_length;
    },
    true,
  )
]

-- `if (msg.m_data) { ... }`: the rest is done on the block, and nothing on NULL.
abbrev pub on_data : Msg → (Block → Outcome Block) → Outcome Msg
on_data msg f = elim msg.m_data [
  | none ↦ ret msg
  | some xs ↦ f xs >>= λ ys. ret (record msg { m_data = some ys })
]

-- A header field, or 0 on NULL.
abbrev pub field : Msg → (Block → Outcome ℕ) → Outcome ℕ
field msg f = elim msg.m_data [ none ↦ ret 0 | some xs ↦ f xs ]

unfoldable pub set_tag : Msg → ℕ → ℕ → Outcome Msg
set_tag msg srv_id sock_id = on_data msg λ xs. do
  a ← poke xs 0 (0x7e ∷ [])
  b ← poke a 1 (0xaa ∷ [])
  c ← poke b 2 (le32 (htonl srv_id))
  poke c 6 (le32 (htonl sock_id))

-- A store that is made only of a value other than 0.
abbrev poke_nonzero : ℕ → Block → ℕ → List ℕ → Outcome Block
poke_nonzero v xs i ys = if v == 0 then ret xs else poke xs i ys

unfoldable pub set_body_head : Msg → ℕ → ℕ → ℕ → ℕ → Outcome Msg
set_body_head msg number sid cid version = on_data msg λ xs. do
  a ← poke xs 11 (102 ∷ [])
  b ← poke a 12 (35 ∷ [])
  c ← poke_nonzero version b 13 (version ∷ [])
  d ← poke_nonzero number c 14 (le16 (htons number))
  e ← poke_nonzero sid d 16 (le16 (htons sid))
  poke_nonzero cid e 18 (le16 (htons cid))

-- `bufalloc(dst, body_len + HEAD_LEN)`: the sum is a uint32_t, passed as an int.
unfoldable pub new_head : Bool → Msg → ℕ → ℕ → Outcome (Msg × Bool)
new_head granted src cid body_len =
    let total = (body_len + head_len) % 2 ^ 32 in
    let (dst, done) = bufalloc (granted && ltb total (2 ^ 31)) total in
    if done
    then (do
      head ← slice (bytes src.m_data) 0 head_len
      a ← poke (bytes dst.m_data) 0 head
      b ← poke a 18 (le16 (htons cid))
      ret (record dst { m_data = some b }, true))
    else ret (dst, false)

-- `for (i = ...; i < ...; ++i) c ^= m_data[HEAD_LEN + i]`, over the `n` bytes from `i` on.
unfoldable pub xor_bytes : ℕ → Block → ℕ → ℕ → Outcome ℕ
xor_bytes c xs i zero = ret c
xor_bytes c xs i (suc n) = peek8 xs i >>= λ b. xor_bytes (bit_xor c b) xs (suc i) n

-- The check byte of a packet whose body has `len` bytes. The byte at HEAD_LEN is read for any `len`.
unfoldable pub check_byte : Block → ℕ → Outcome ℕ
check_byte xs len = do
  a ← peek8 xs 24
  b ← peek8 xs 25
  d ← peek8 xs head_len
  xor_bytes (bit_xor (bit_xor a b) d) xs (head_len + 1) (len - 1)

-- The check byte is computed and stored.
unfoldable pub seal : Block → ℕ → Outcome Block
seal xs len = check_byte xs len >>= λ c. poke xs 26 (c ∷ [])

-- The first part of `set_data`: the message, resized where its capacity is short.
unfoldable pub prepare : Realloc → Msg → ℕ → Msg × Bool
prepare answer msg total = if ltb msg.m_alloc total then resize answer msg total else (msg, false)

-- The second part, which follows a successful and a failed `resize` alike.
unfoldable pub store_data : Msg × Bool → Option Block → ℕ → ℕ → Outcome (Msg × Bool)
store_data (m, done) buf len total = elim m.m_data [
  | none ↦ ret (m, done)
  | some xs ↦ do
    a ← poke xs 24 (le16 (htons len))
    b ← elim buf [ none ↦ ret a | some src ↦ slice src 0 len >>= λ body. poke a head_len body ]
    c ← seal b len
    ret (record m { m_data = some c; m_len = total }, true)
]

unfoldable pub set_data : Realloc → Msg → Option Block → ℕ → Outcome (Msg × Bool)
set_data answer msg buf len =
    let total = (len + head_len) % 2 ^ 16 in store_data (prepare answer msg total) buf len total

-- What the code calls of google::protobuf::MessageLite: `SerializeToArray` is given the size of the
-- array, and writes the bytes or fails.
pub record MessageLite : Type 0 where
  pub byte_size : ℕ
  pub serialize_to_array : ℕ → Option (List ℕ)

unfoldable pub set_pb : Msg → MessageLite → Outcome (Msg × Bool)
set_pb msg pb = elim msg.m_data [
  | none ↦ ret (msg, false)
  | some xs ↦ do
    a ← poke xs 24 (le16 (htons (pb.byte_size % 2 ^ 16)))
    elim (pb.serialize_to_array pb.byte_size) [
      | none ↦ ret (record msg { m_data = some a }, false)
      | some body ↦ do
        b ← poke a head_len body
        c ← seal b pb.byte_size
        ret (record msg { m_data = some c; m_len = (pb.byte_size + head_len) % 2 ^ 16 }, true)
    ]
]

unfoldable pub set_checksum : Msg → Outcome (Msg × Bool)
set_checksum msg = if ltb msg.m_len head_len then ret (msg, false) else (do
  a ← poke (bytes msg.m_data) 24 (le16 (htons ((msg.m_len - head_len) % 2 ^ 16)))
  b ← seal a (msg.m_len - head_len)
  ret (record msg { m_data = some b }, true))

unfoldable pub check : Msg → Outcome Bool
check msg = elim msg.m_data [
  | none ↦ ret false
  | some xs ↦ do c ← check_byte xs (msg.m_len - head_len); stored ← peek8 xs 26; ret (stored == c)
]

unfoldable pub deep_copy : Realloc → Msg → Msg → Outcome (Msg × Bool)
deep_copy answer dest msg =
    let (d, done) = resize answer dest msg.m_alloc in
    if done
    then (do
      body ← slice (bytes msg.m_data) 0 msg.m_len
      a ← poke (bytes d.m_data) 0 body
      ret (record d { m_data = Option.some a; m_len = msg.m_len }, true))
    else ret (d, false)
