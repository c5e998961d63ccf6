-- ===== src/Frame/Window.antt =====
-- The bytes of a buffer that `data` and `conn->buf_len` mark off, as a list: what the reads of
-- `TcpServer::parse` answer in terms of it.
use snframe.Base.{
  ℕ, zero, suc, ◌+◌, ◌-◌, ◌≤◌, ◌<◌, ◌≡◌, sym, ap, ◌∙◌, Bool, Bool-cases, inl, inr, true, false,
  Option, none, some, List, ◌++◌, length, take, drop, length-take, length-drop, get_or-take,
  get_or-drop, take-take, drop-take, length-append, get_or-append_left, get_or-append_right,
  drop-drop, list_ext, le→leb, ret, arith,
}
use native.Mathlib.Decide.{dec_lt}
use snframe.Memory.{
  byte-put_other, Block, byte, u16, put, poke, poke-put, byte-put_self, length-put, slice,
  peek8-byte, peek16, peek16-u16,
}
use snframe.Frame.{tag_at, find_tag}
use snframe.Frame.Scan.{tagged, first_tag}

abbrev pub window : Block → ℕ → ℕ → List ℕ
window buf pos n = take n (drop pos buf)

-- Where the search for a tag stops.
abbrev pub stops_at : ℕ → Option ℕ → ℕ × Bool
stops_at last none = (last, false)
stops_at last (some i) = (i, true)

module _ (buf : Block) (pos n : ℕ) (inside : pos + n ≤ length buf) where
  pub length-window : length (window buf pos n) ≡ n
  length-window = omega (arith, length-take n (drop pos buf), length-drop pos buf)

  pub slice-window : slice buf pos n ≡ ret (window buf pos n)
  unfolding slice
  slice-window = rw (le→leb (pos + n) (length buf) inside)

  pub take-window : (k : ℕ) → k ≤ n → take k (window buf pos n) ≡ window buf pos k
  take-window k h = take-take (drop pos buf) k n h

  pub drop-window : (k : ℕ) → k ≤ n → drop k (window buf pos n) ≡ window buf (pos + k) (n - k)
  drop-window k h = drop-take (drop pos buf) k n h ∙ ap (take (n - k)) (drop-drop k pos buf)

  pub byte-window : (k : ℕ) → k < n → byte (window buf pos n) k ≡ byte buf (pos + k)
  byte-window k h = get_or-take (drop pos buf) n k 0 h ∙ get_or-drop buf pos k 0

  pub tag_at-tagged : (i : ℕ) → i + 1 < n → tag_at buf (pos + i) ≡ ret (tagged (window buf pos n) i)
  unfolding tag_at
  tag_at-tagged i h =
      rw
        (
          peek8-byte buf (pos + i) (omega arith),
          byte-window i (omega arith),
          byte-window (i + 1) h,
          next,
        )
        (ground (arith, peek8-byte buf (pos + i + 1) (omega arith)))
    where
      next : pos + (i + 1) ≡ pos + i + 1
      next = omega arith

  pub find_tag-first_tag :
      (i r : ℕ)
      → i + r < n
      → find_tag buf pos i r ≡ ret (stops_at (i + r) (first_tag (window buf pos n) i r))
  unfolding find_tag first_tag
  find_tag-first_tag i zero h = ground arith
  find_tag-first_tag i (suc r) h =
      rw (tag_at-tagged i (omega arith), find_tag-first_tag (i + 1) r (omega arith), next)
        (elim (Bool-cases (tagged (window buf pos n) i)) [ inl e ↦ rw e | inr e ↦ rw e ])
    where
      next : i + 1 + r ≡ i + suc r
      next = omega arith

  pub peek16-window : (i : ℕ) → i + 1 < n → peek16 buf (pos + i) ≡ ret (u16 (window buf pos n) i)
  peek16-window i h = rw (
    peek16-u16 buf (pos + i) (omega arith),
    byte-window i (omega arith),
    byte-window (i + 1) h,
    next,
  )
    where
      next : pos + (i + 1) ≡ pos + i + 1
      next = omega arith

-- A copy over the whole of a block.
pub poke-whole : (xs ys : Block) → length ys ≡ length xs → poke xs 0 ys ≡ ret ys
poke-whole xs ys h =
    poke-put xs 0 ys (omega arith)
    ∙ ap ret (
        list_ext (put xs 0 ys) ys 0 (length-put xs 0 ys ∙ sym h)
          (λ i k. byte-put_self xs 0 ys i i (omega arith) k (omega arith)))

-- A copy behind the first `i` bytes of a block.
pub take-put :
    (xs : Block) (i : ℕ) (ys : List ℕ)
    → i + length ys ≤ length xs
    → take (i + length ys) (put xs i ys) ≡ take i xs ++ ys
take-put xs i ys h = list_ext (take (i + length ys) (put xs i ys)) (take i xs ++ ys) 0 sizes same
  where
    front_size : length (take i xs) ≡ i
    front_size = omega (arith, length-take i xs)

    sizes : length (take (i + length ys) (put xs i ys)) ≡ length (take i xs ++ ys)
    sizes = omega (
      arith,
      length-take (i + length ys) (put xs i ys),
      length-put xs i ys,
      length-append (take i xs) ys,
      front_size,
    )

    behind : (k : ℕ) → byte (take i xs ++ ys) (i + k) ≡ byte ys k
    behind k = rw front_size at (get_or-append_right (take i xs) ys k 0)

    same :
        (j : ℕ)
        → j < length (take i xs ++ ys)
        → byte (take (i + length ys) (put xs i ys)) j ≡ byte (take i xs ++ ys) j
    same j k =
        let inside : j < i + length ys = omega (arith, length-append (take i xs) ys, front_size) in
        get_or-take (put xs i ys) (i + length ys) j 0 inside ∙ elim (dec_lt j i) [
          | yes low ↦
              byte-put_other xs i ys j (inl low)
              ∙ sym (
                  get_or-append_left (take i xs) ys j 0 (omega (arith, front_size))
                  ∙ get_or-take xs i j 0 low)
          | no high ↦
              let e : j ≡ i + (j - i) = omega arith in
              byte-put_self xs i ys (j - i) j e (omega arith) h ∙ sym (rw (← e) at (behind (j - i)))
        ]
