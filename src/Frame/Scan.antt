-- ===== src/Frame/Scan.antt =====
-- What `TcpServer::parse` does, said of a list of bytes alone: no buffer, no position, no packet that
-- is half copied.
use snframe.Base.{
  lt→ltb, le→ltb, le→leb, lt→leb, ℕ, zero, suc, ◌+◌, ◌-◌, ◌≤◌, ◌<◌, ◌≡◌, Bool, true, false, ◌&&◌,
  Option, none, some, List, [], length, take, drop, ltb, leb, ◌==◌, if◌then◌else◌, Outcome, ret,
  stuck, ◌>>=◌, arith,
}
use snframe.Memory.{byte, u16, htons}
use snframe.Packet.{Msg}

-- A message that holds these bytes and no others.
abbrev pub packet_of : List ℕ → Msg
packet_of xs = record { m_data = some xs; m_len = length xs; m_alloc = length xs }

abbrev pub tagged : List ℕ → ℕ → Bool
tagged xs i = byte xs i == 0x7e && byte xs (i + 1) == 0xaa

-- The size that the header at the front announces.
unfoldable pub announced : List ℕ → ℕ
announced xs = htons (u16 xs 24) + 27

pub announced-ge : (xs : List ℕ) → 27 ≤ announced xs
unfolding announced
announced-ge xs = omega arith

-- The first tag at `i` or behind, with `n` places to try.
unfoldable pub first_tag : List ℕ → ℕ → ℕ → Option ℕ
first_tag xs i zero = none
first_tag xs i (suc n) = let later = first_tag xs (i + 1) n in if tagged xs i then some i else later

pub first_tag-bounds :
    (xs : List ℕ) (i n j : ℕ)
    → first_tag xs i n ≡ some j
    → (i ≤ j) × (j < i + n) × (tagged xs j ≡ true)
unfolding first_tag
first_tag-bounds xs i zero j e = cc
first_tag-bounds xs i (suc n) j e = ground (arith, first_tag-bounds xs (i + 1) n j)

pub first_tag-pos :
    (xs : List ℕ) (n j : ℕ) → tagged xs 0 ≡ false → first_tag xs 0 n ≡ some j → 1 ≤ j
first_tag-pos xs n zero t e = let b = first_tag-bounds xs 0 n 0 e in cc (b.2, t)
first_tag-pos xs n (suc j) t e = omega arith

-- What stands at the front: a packet and the bytes behind it, bytes to pass over, or nothing that
-- can be taken, with the bytes that are kept for later.
pub data Front : Type 0 where
  packet : List ℕ → List ℕ → Front
  skip : List ℕ → Front
  stop : List ℕ → Front

-- A tag that stands exactly as far from the front as its byte from the end, less one, is dropped with
-- all the rest: so does the code.
unfoldable pub skip_to : List ℕ → Option ℕ → Front
skip_to xs none = stop []
skip_to xs (some i) = if i == length xs - i - 1 then stop [] else skip (drop i xs)

unfoldable pub front : List ℕ → Front
front xs =
    if ltb (length xs) 27
    then stop xs
    else if tagged xs 0
    then (if leb (announced xs) (length xs)
        then packet (take (announced xs) xs) (drop (announced xs) xs)
        else stop xs)
    else skip_to xs (first_tag xs 0 (length xs - 1))

module _ {ℓ} {W : Type ℓ} (deliver : Msg → W → Outcome W) where
  unfoldable pub scan : ℕ → List ℕ → W → Outcome (List ℕ × W)
  scan zero xs w = stuck
  scan (suc fuel) xs w = elim (front xs) [
    | packet p rest ↦ deliver (packet_of p) w >>= scan fuel rest
    | skip rest ↦ scan fuel rest w
    | stop rest ↦ ret (rest, w)
  ]

module _ (xs : List ℕ) where
  pub front-short : length xs < 27 → front xs ≡ stop xs
  unfolding front
  front-short h = rw (lt→ltb (length xs) 27 h)

  module _ (long : 27 ≤ length xs) where
    pub front-packet :
        tagged xs 0 ≡ true
        → announced xs ≤ length xs
        → front xs ≡ packet (take (announced xs) xs) (drop (announced xs) xs)
    unfolding front
    front-packet t h = rw (le→ltb (length xs) 27 long, t, le→leb (announced xs) (length xs) h)

    pub front-part : tagged xs 0 ≡ true → length xs < announced xs → front xs ≡ stop xs
    unfolding front
    front-part t h = rw (le→ltb (length xs) 27 long, t, lt→leb (announced xs) (length xs) h)

    pub front-untagged :
        tagged xs 0 ≡ false → front xs ≡ skip_to xs (first_tag xs 0 (length xs - 1))
    unfolding front
    front-untagged t = rw (le→ltb (length xs) 27 long, t)

module _ {ℓ} {W : Type ℓ} (deliver : Msg → W → Outcome W) (fuel : ℕ) (xs : List ℕ) (w : W) where
  pub scan-packet :
      (p rest : List ℕ)
      → front xs ≡ packet p rest
      → scan deliver (suc fuel) xs w ≡ (deliver (packet_of p) w >>= scan deliver fuel rest)
  unfolding scan
  scan-packet p rest e = rw (e, scan)

  pub scan-skip :
      (rest : List ℕ)
      → front xs ≡ skip rest
      → scan deliver (suc fuel) xs w ≡ scan deliver fuel rest w
  unfolding scan
  scan-skip rest e = rw (e, scan)

  pub scan-stop :
      (rest : List ℕ) → front xs ≡ stop rest → scan deliver (suc fuel) xs w ≡ ret (rest, w)
  unfolding scan
  scan-stop rest e = rw (e, scan)
