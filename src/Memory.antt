-- ===== src/Memory.antt =====
-- Blocks of bytes as src/base/PbBuf.cpp and src/core/TcpServer.cpp address them: loads and stores at an
-- offset, of one byte or of a word in the order of a little-endian host, memcpy, and the functions
-- of arpa/inet.h that turn a word round. An access that leaves the block is a fault.
use snframe.Base.{
  ℕ, zero, suc, ◌+◌, ◌*◌, ◌/◌, ◌%◌, ◌^◌, ◌≤◌, ◌<◌, ◌≡◌, refl, ◌∙◌, ◌⊎◌, inl, inr, List, [], ◌∷◌,
  arith, length, replicate, length-replicate, get_or, set, take, drop, length-set, get_or-set_self,
  get_or-set_ne, ltb, leb, Outcome, ret, fault, access, lt→ltb, le→ltb, le→leb, lt→leb,
}

abbrev pub Block : Type 0
Block = List ℕ

-- A block that memset has cleared.
abbrev pub zeros : ℕ → Block
zeros n = replicate n 0

pub length-zeros : (n : ℕ) → length (zeros n) ≡ n
length-zeros n = length-replicate n 0

abbrev pub byte : Block → ℕ → ℕ
byte xs i = get_or xs i 0

unfoldable pub peek8 : Block → ℕ → Outcome ℕ
peek8 xs i = access (ltb i (length xs)) (byte xs i)

unfoldable pub peek16 : Block → ℕ → Outcome ℕ
peek16 xs i = access (leb (i + 2) (length xs)) (byte xs i + 256 * byte xs (i + 1))

unfoldable pub peek32 : Block → ℕ → Outcome ℕ
peek32 xs i =
    access (leb (i + 4) (length xs))
      (byte xs i + 256 * byte xs (i + 1) + 256 ^ 2 * byte xs (i + 2) + 256 ^ 3 * byte xs (i + 3))

-- The bytes `ys` over those from `i` on.
unfoldable pub put : Block → ℕ → List ℕ → Block
put xs i [] = xs
put xs i (y ∷ ys) = put (set xs i y) (suc i) ys

unfoldable pub poke : Block → ℕ → List ℕ → Outcome Block
poke xs i ys = access (leb (i + length ys) (length xs)) (put xs i ys)

-- The `n` bytes from `i` on, the source of a memcpy.
unfoldable pub slice : Block → ℕ → ℕ → Outcome (List ℕ)
slice xs i n = access (leb (i + n) (length xs)) (take n (drop i xs))

-- A word as the host stores it.
abbrev pub le16 : ℕ → List ℕ
le16 v = v % 256 ∷ v / 256 % 256 ∷ []

abbrev pub le32 : ℕ → List ℕ
le32 v = v % 256 ∷ v / 256 % 256 ∷ v / 256 ^ 2 % 256 ∷ v / 256 ^ 3 % 256 ∷ []

unfoldable pub htons : ℕ → ℕ
htons v = v % 256 * 256 + v / 256 % 256

unfoldable pub htonl : ℕ → ℕ
htonl v = v % 256 * 256 ^ 3 + v / 256 % 256 * 256 ^ 2 + v / 256 ^ 2 % 256 * 256 + v / 256 ^ 3 % 256

pub htons-htons : (v : ℕ) → v < 2 ^ 16 → htons (htons v) ≡ v
unfolding htons
htons-htons v h = omega arith

pub htonl-htonl : (v : ℕ) → v < 2 ^ 32 → htonl (htonl v) ≡ v
unfolding htonl
htonl-htonl v h = omega arith

pub htons-lt : (v : ℕ) → htons v < 2 ^ 16
unfolding htons
htons-lt v = omega arith

pub htonl-lt : (v : ℕ) → htonl v < 2 ^ 32
unfolding htonl
htonl-lt v = omega arith

pub length-put : (xs : Block) (i : ℕ) (ys : List ℕ) → length (put xs i ys) ≡ length xs
unfolding put
length-put xs i [] = refl
length-put xs i (y ∷ ys) = length-put (set xs i y) (suc i) ys ∙ length-set xs i y

-- A store leaves every byte outside its range.
pub byte-put_other :
    (xs : Block) (i : ℕ) (ys : List ℕ) (j : ℕ)
    → (j < i) ⊎ (i + length ys ≤ j)
    → byte (put xs i ys) j ≡ byte xs j
unfolding put
byte-put_other xs i [] j h = refl
byte-put_other xs i (y ∷ ys) j (inl h) =
    byte-put_other (set xs i y) (suc i) ys j (inl (omega arith))
    ∙ get_or-set_ne xs i j y 0 (omega arith)
byte-put_other xs i (y ∷ ys) j (inr h) =
    byte-put_other (set xs i y) (suc i) ys j (inr (omega arith))
    ∙ get_or-set_ne xs i j y 0 (omega arith)

-- Inside its range a store is read back.
pub byte-put_self :
    (xs : Block) (i : ℕ) (ys : List ℕ) (k j : ℕ)
    → j ≡ i + k
    → k < length ys
    → i + length ys ≤ length xs
    → byte (put xs i ys) j ≡ byte ys k
unfolding put
byte-put_self xs i [] k j e h f = elim h [ ]
byte-put_self xs i (y ∷ ys) zero j e h f =
    byte-put_other (set xs i y) (suc i) ys j (inl (omega arith))
    ∙ (let e' : j ≡ i = omega arith in rw e' (get_or-set_self xs i y 0 (omega arith)))
byte-put_self xs i (y ∷ ys) (suc k) j e h f =
    byte-put_self (set xs i y) (suc i) ys k j (omega arith) (omega arith)
      (omega (arith, length-set xs i y))

-- The pure readings, for a block that is long enough.
abbrev pub u16 : Block → ℕ → ℕ
u16 xs i = byte xs i + 256 * byte xs (i + 1)

abbrev pub u32 : Block → ℕ → ℕ
u32 xs i = u16 xs i + 256 ^ 2 * byte xs (i + 2) + 256 ^ 3 * byte xs (i + 3)

pub peek8-byte : (xs : Block) (i : ℕ) → i < length xs → peek8 xs i ≡ ret (byte xs i)
unfolding peek8
peek8-byte xs i h = rw (lt→ltb i (length xs) h)

pub peek8-fault : (xs : Block) (i : ℕ) → length xs ≤ i → peek8 xs i ≡ fault
unfolding peek8
peek8-fault xs i h = rw (le→ltb i (length xs) h)

pub peek16-u16 : (xs : Block) (i : ℕ) → i + 2 ≤ length xs → peek16 xs i ≡ ret (u16 xs i)
unfolding peek16
peek16-u16 xs i h = rw (le→leb (i + 2) (length xs) h)

pub peek32-u32 : (xs : Block) (i : ℕ) → i + 4 ≤ length xs → peek32 xs i ≡ ret (u32 xs i)
unfolding peek32
peek32-u32 xs i h = rw (le→leb (i + 4) (length xs) h)

pub poke-put :
    (xs : Block) (i : ℕ) (ys : List ℕ)
    → i + length ys ≤ length xs
    → poke xs i ys ≡ ret (put xs i ys)
unfolding poke
poke-put xs i ys h = rw (le→leb (i + length ys) (length xs) h)

pub poke-fault :
    (xs : Block) (i : ℕ) (ys : List ℕ) → length xs < i + length ys → poke xs i ys ≡ fault
unfolding poke
poke-fault xs i ys h = rw (lt→leb (i + length ys) (length xs) h)

-- A range of `n` bytes from `i` on, and one of `m` bytes from `j` on, do not meet.
abbrev pub Apart : ℕ → ℕ → ℕ → ℕ → Type 0
Apart i n j m = (j + m ≤ i) ⊎ (i + n ≤ j)

pub u16-put_other :
    (xs : Block) (i : ℕ) (ys : List ℕ) (j : ℕ)
    → Apart i (length ys) j 2
    → u16 (put xs i ys) j ≡ u16 xs j
u16-put_other xs i ys j h =
    rw (byte-put_other xs i ys j (omega arith), byte-put_other xs i ys (j + 1) (omega arith))

pub u32-put_other :
    (xs : Block) (i : ℕ) (ys : List ℕ) (j : ℕ)
    → Apart i (length ys) j 4
    → u32 (put xs i ys) j ≡ u32 xs j
u32-put_other xs i ys j h = rw (
  byte-put_other xs i ys j (omega arith),
  byte-put_other xs i ys (j + 1) (omega arith),
  byte-put_other xs i ys (j + 2) (omega arith),
  byte-put_other xs i ys (j + 3) (omega arith),
)

pub u16-put_self :
    (xs : Block) (i v : ℕ) → v < 2 ^ 16 → i + 2 ≤ length xs → u16 (put xs i (le16 v)) i ≡ v
u16-put_self xs i v h f = omega (
  arith,
  byte-put_self xs i (le16 v) 0 i (omega arith) (omega arith) f,
  byte-put_self xs i (le16 v) 1 (i + 1) refl (omega arith) f,
)

pub u32-put_self :
    (xs : Block) (i v : ℕ) → v < 2 ^ 32 → i + 4 ≤ length xs → u32 (put xs i (le32 v)) i ≡ v
u32-put_self xs i v h f = omega (
  arith,
  byte-put_self xs i (le32 v) 0 i (omega arith) (omega arith) f,
  byte-put_self xs i (le32 v) 1 (i + 1) refl (omega arith) f,
  byte-put_self xs i (le32 v) 2 (i + 2) refl (omega arith) f,
  byte-put_self xs i (le32 v) 3 (i + 3) refl (omega arith) f,
)
