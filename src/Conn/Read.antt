-- ===== src/Conn/Read.antt =====
-- `Connection::read` of src/core/Connection.cpp: what arrives in the buffer that `parse` cuts up.
use snframe.Base.{
  ℕ, ◌+◌, ◌-◌, ◌≤◌, ◌<◌, ◌≡◌, refl, sym, ap, ◌∙◌, Bool-cases, inl, inr, List, [], ◌∷◌, ◌++◌, length,
  take, length-take, take-append, take-take, take-append_add, take-length, ==_iff, ◌==◌, leb,
  length-append, take-nil, true, false, if◌then◌else◌, Outcome, ret, ◌>>=◌, arith,
}
use native.Mathlib.Decide.{dec_lt}
use mathlib.Core.List.{append-nil, append_assoc}
use snframe.Memory.{put, poke-put, length-put}
use snframe.Frame.{Frame, recv_buf_len}
use snframe.Frame.Window.{window, take-put}
use snframe.Frame.Delivery.{IsFrame, kept}
use snframe.Conn.{
  Recv, recv_failed, recv_interrupted, recv_again, receives, IoResult, io_error, io_closed,
  io_finish, io_again, read,
}

-- What the kernel hands over before it first has nothing more, fails or closes, and the result for
-- that. A call that is interrupted is made again. Behind the answers the socket would block.
abbrev pub arrives : List Recv → List ℕ × IoResult
arrives [] = ([], io_again)
arrives (recv_failed ∷ answers) = ([], io_error)
arrives (recv_interrupted ∷ answers) = arrives answers
arrives (recv_again ∷ answers) = ([], io_again)
arrives (receives [] ∷ answers) = ([], io_closed)
arrives (receives (x ∷ xs) ∷ answers) = let (ys, r) = arrives answers in ((x ∷ xs) ++ ys, r)

-- What the buffer has room for.
abbrev pub room : Frame → ℕ
room f = recv_buf_len - f.buf_len

-- The frame after bytes are stored behind those that wait.
abbrev stored : Frame → List ℕ → Frame
stored f xs = record f { buf = put f.buf f.buf_len xs; buf_len = f.buf_len + length xs }

module _ (f : Frame) (xs : List ℕ) (h : IsFrame f)
    (fits : f.buf_len + length xs ≤ recv_buf_len) where
  stored-IsFrame : IsFrame (stored f xs)
  stored-IsFrame = record {
    full = length-put f.buf f.buf_len xs ∙ h.full;
    inside = fits;
    part = elim h.part [
      | inl idle ↦ inl idle
      | inr p ↦ inr (record {
        block = p.block;
        held = p.held;
        whole = p.whole;
        exact = p.exact;
        some_header = p.some_header;
        missing = p.missing;
        tag = p.tag;
        size = p.size;
      })
    ];
  }

  kept-stored : kept (stored f xs) ≡ kept f ++ xs
  kept-stored =
      rw (take-put f.buf f.buf_len xs (omega (arith, h.full)))
        (elim (Bool-cases (f.less_pkt_len == 0)) [
          | inl e ↦ rw e refl
          | inr e ↦ rw e (sym (append_assoc _ (window f.buf 0 f.buf_len) xs))
        ])

-- What a call has done, when `ys` arrive, and then what has the result `r`.
abbrev Filled : Frame → List ℕ × IoResult → Outcome (Frame × IoResult) → Type 0
Filled f (ys, r) o =
    (g : Frame) × (o ≡ ret (g, if leb (room f) (length ys) then io_finish else r))
    × IsFrame g
    × (kept g ≡ kept f ++ take (room f) ys)
    × (g.buf_len ≡ f.buf_len + length (take (room f) ys))

zero-leb : (n : ℕ) → leb 0 n ≡ true
zero-leb n = ground arith

full-leb : (f : Frame) → IsFrame f → leb (room f) 0 ≡ (f.buf_len == recv_buf_len)
full-leb f h = ground (arith, h.inside)

full-Filled :
    (f : Frame) (ys : List ℕ) (r : IoResult) (o : Outcome (Frame × IoResult))
    → IsFrame f
    → f.buf_len ≡ recv_buf_len
    → o ≡ ret (f, io_finish)
    → Filled f (ys, r) o
full-Filled f ys r o h e d = (
  f,
  d ∙ rw (none_left, zero-leb (length ys)) refl,
  h,
  rw none_left (sym (append-nil _)),
  rw none_left (omega arith),
)
  where
    none_left : room f ≡ 0
    none_left = omega arith

-- Nothing has arrived.
idle-Filled :
    (f : Frame) (r : IoResult) (o : Outcome (Frame × IoResult))
    → IsFrame f
    → o ≡ ret (f, if f.buf_len == recv_buf_len then io_finish else r)
    → Filled f ([], r) o
idle-Filled f r o h d = (
  f,
  d ∙ rw (full-leb f h) refl,
  h,
  rw (take-nil (room f)) (sym (append-nil _)),
  rw (take-nil (room f)) (omega arith),
)

-- More bytes after the first `xs`.
more-Filled :
    (f : Frame) (xs ys : List ℕ) (r : IoResult) (o : Outcome (Frame × IoResult))
    → IsFrame f
    → f.buf_len + length xs ≤ recv_buf_len
    → Filled (stored f xs) (ys, r) o
    → Filled f (xs ++ ys, r) o
more-Filled f xs ys r o h fits (g, e, sound, same, size) = (
  g,
  e ∙ ap (λ b. ret (g, if b then io_finish else r)) more_room,
  sound,
  same ∙ rw (joined, kept-stored f xs h fits) (append_assoc (kept f) xs (take left ys)),
  size ∙ rw (joined, length-append xs (take left ys)) (omega arith),
)
  where
    left : ℕ
    left = room (stored f xs)

    joined : take (room f) (xs ++ ys) ≡ xs ++ take left ys
    joined = take-append_add xs ys (room f) left (omega arith)

    more_room : leb left (length ys) ≡ leb (room f) (length (xs ++ ys))
    more_room = rw (length-append xs ys) (ground arith)

-- More bytes than fit.
most-Filled :
    (f : Frame) (xs ys : List ℕ) (r : IoResult) (o : Outcome (Frame × IoResult))
    → IsFrame f
    → room f < length xs
    → o ≡ ret (stored f (take (room f) xs), io_finish)
    → Filled f (xs ++ ys, r) o
most-Filled f xs ys r o h long d = (
  stored f (take (room f) xs),
  d ∙ ap (λ b. ret (stored f (take (room f) xs), if b then io_finish else r)) enough,
  stored-IsFrame f (take (room f) xs) h fits,
  kept-stored f (take (room f) xs) h fits ∙ ap (λ zs. kept f ++ zs) front,
  ap (λ zs. f.buf_len + length zs) front,
)
  where
    fits : f.buf_len + length (take (room f) xs) ≤ recv_buf_len
    fits = omega (arith, length-take (room f) xs, h.inside)

    enough : true ≡ leb (room f) (length (xs ++ ys))
    enough = rw (length-append xs ys) (ground arith)

    front : take (room f) xs ≡ take (room f) (xs ++ ys)
    front =
        ap (take (room f)) (sym (take-append xs ys (length xs) refl))
        ∙ take-take (xs ++ ys) (room f) (length xs) (omega arith)

read-full :
    (answers : List Recv) (f : Frame)
    → f.buf_len ≡ recv_buf_len
    → read answers f ≡ ret (f, io_finish)
unfolding read
read-full [] f e = rw e refl
read-full (recv_failed ∷ answers) f e = rw e refl
read-full (recv_interrupted ∷ answers) f e = rw e refl
read-full (recv_again ∷ answers) f e = rw e refl
read-full (receives xs ∷ answers) f e = rw e refl

-- The answers of recv are any finite list, behind which the socket would block. A call of `read`
-- comes to an end and never writes outside the buffer. It leaves the connection sound, and behind
-- the bytes that wait for `parse` it adds those that arrive, in their order, as many as the buffer
-- has room for. The answer is IO_FINISH where they fill it, and what recv has ended with where not.
pub read-IsFrame :
    (answers : List Recv) (f : Frame)
    → IsFrame f
    → let (ys, r) = arrives answers in
      (g : Frame) × (read answers f ≡ ret (g, if leb (room f) (length ys) then io_finish else r))
      × IsFrame g
      × (kept g ≡ kept f ++ take (room f) ys)
      × (g.buf_len ≡ f.buf_len + length (take (room f) ys))
unfolding read
read-IsFrame [] f h = idle-Filled f io_again _ h refl
read-IsFrame (recv_failed ∷ answers) f h = idle-Filled f io_error _ h refl
read-IsFrame (recv_again ∷ answers) f h = idle-Filled f io_again _ h refl
read-IsFrame (recv_interrupted ∷ answers) f h = elim (Bool-cases (f.buf_len == recv_buf_len)) [
  | inl e ↦ full-Filled f _ _ _ h ((==_iff f.buf_len recv_buf_len).0 e) (rw e refl)
  | inr e ↦ rw e (read-IsFrame answers f h)
]
read-IsFrame (receives [] ∷ answers) f h = idle-Filled f io_closed _ h (
    rw (take-nil (room f))
      (elim (Bool-cases (f.buf_len == recv_buf_len)) [ inl e ↦ rw e refl | inr e ↦ rw e refl ]))
read-IsFrame (receives (x ∷ xs) ∷ answers) f h = elim (Bool-cases (f.buf_len == recv_buf_len)) [
  | inl e ↦ full-Filled f _ _ _ h ((==_iff f.buf_len recv_buf_len).0 e) (rw e refl)
  | inr e ↦
      rw
        (
          e,
          some_bytes (h.inside) e,
          poke-put f.buf f.buf_len got (omega (arith, h.full, h.inside, size)),
          ◌>>=◌,
        )
        (elim (dec_lt (room f) (length (x ∷ xs))) [
          | yes long ↦
              most-Filled f (x ∷ xs) _ _ _ h long (read-full answers (stored f got) (all_got long))
          | no fits ↦
              let same : got ≡ x ∷ xs = take-length (x ∷ xs) (room f) (omega arith) in
              rw same (
                more-Filled f (x ∷ xs) _ _ _ h (omega (arith, h.inside)) (
                  read-IsFrame answers (stored f (x ∷ xs))
                    (stored-IsFrame f (x ∷ xs) h (omega (arith, h.inside)))))
        ])
]
  where
    got : List ℕ
    got = take (room f) (x ∷ xs)

    size : length got ≤ room f
    size = omega (arith, length-take (room f) (x ∷ xs))

    all_got : room f < length (x ∷ xs) → f.buf_len + length got ≡ recv_buf_len
    all_got long = omega (arith, h.inside, length-take (room f) (x ∷ xs))

    some_bytes :
        f.buf_len ≤ recv_buf_len → (f.buf_len == recv_buf_len) ≡ false → (length got == 0) ≡ false
    some_bytes inside e = ground (arith, length-take (room f) (x ∷ xs))
