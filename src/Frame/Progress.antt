-- ===== src/Frame/Progress.antt =====
-- How many rounds the loop of `TcpServer::parse` of src/core/TcpServer.cpp makes: each takes a byte of
-- the buffer at least, but for those where malloc refuses a packet.
use snframe.Base.{
  ℕ, zero, suc, ◌+◌, ◌-◌, ◌≤◌, ◌<◌, ◌≡◌, ◌≢◌, refl, Bool, inl, inr, true, false, Bool-cases, List,
  [], ◌∷◌, length, ltb, leb, leb→le, ltb→ge, ◌==◌, ◌||◌, if◌then◌else◌, Outcome, ret, fault, stuck,
  ◌>>=◌, arith,
}
use snframe.Memory.{slice, peek16, htons}
use snframe.Packet.{Msg, bufalloc}
use snframe.Frame.{
  clear, next_answer, Frame, Loop, Round, goes_on, breaks, parse, loop, round, compact,
  whole_packet, part_packet, packet, resync, rest_packet, more_packet, tag_at,
}
use snframe.Frame.Search.{
  slice-runs, poke-runs, peek16-runs, tag_at-runs, Finds, finds, misses, strays, find_tag-Finds,
  tag-ahead, nonzero,
}

-- How often malloc refuses.
abbrev pub refusals : List Bool → ℕ
refusals [] = 0
refusals (true ∷ answers) = refusals answers
refusals (false ∷ answers) = suc (refusals answers)

-- A refusal of malloc uses one up.
refused-shorter :
    (answers : List Bool)
    → (next_answer answers).0 ≡ false
    → refusals (next_answer answers).1 < refusals answers
refused-shorter [] e = cc
refused-shorter (true ∷ answers) e = cc
refused-shorter (false ∷ answers) e = omega arith

answers-shorter : (answers : List Bool) → refusals (next_answer answers).1 ≤ refusals answers
answers-shorter [] = omega arith
answers-shorter (true ∷ answers) = omega arith
answers-shorter (false ∷ answers) = omega arith

module _ {ℓ} {W : Type ℓ} where
  abbrev measure : Loop W → ℕ
  measure s = s.frame.buf_len + refusals s.answers

  -- A round from a state of this measure ends the loop, or goes on with a smaller one.
  data Shrinks (n : ℕ) : Outcome (Round W) → Type ℓ where
    down : (t : Loop W) → measure t < n → Shrinks n (ret (goes_on t))
    over : (t : Loop W) → Shrinks n (ret (breaks t))
    wild : Shrinks n fault

  Shrinks-bind {κ} :
      {A : Type κ} (n : ℕ) (o : Outcome A) (f : A → Outcome (Round W))
      → (o ≢ stuck)
      → ((a : A) → o ≡ ret a → Shrinks n (f a))
      → Shrinks n (o >>= f)
  Shrinks-bind n (ret a) f h k = k a refl
  Shrinks-bind n fault f h k = wild
  Shrinks-bind n stuck f h k = absurd (h refl)

  part_packet-Shrinks : (s : Loop W) (size : ℕ) → Shrinks (measure s) (part_packet s size)
  unfolding part_packet bufalloc
  part_packet-Shrinks s size = elim (Bool-cases (next_answer s.answers).0) [
    | inl e ↦ rw e (
        Shrinks-bind _ (slice s.frame.buf s.pos s.frame.buf_len) _ (slice-runs _ _ _)
          λ src _. Shrinks-bind _ _ _ (poke-runs _ _ _) λ block _. over _)
    | inr e ↦ rw e (down _ (omega (arith, refused-shorter s.answers e)))
  ]

  more_packet-Shrinks : (s : Loop W) → 27 ≤ s.frame.buf_len → Shrinks (measure s) (more_packet s)
  unfolding more_packet
  more_packet-Shrinks s h =
      Shrinks-bind _ (slice s.frame.buf s.pos s.frame.buf_len) _ (slice-runs _ _ _)
        λ src _. Shrinks-bind _ _ _ (poke-runs _ _ _) λ block _. down _ (omega arith)

  resync-Shrinks :
      (s : Loop W)
      → tag_at s.frame.buf s.pos ≡ ret false
      → 27 ≤ s.frame.buf_len
      → Shrinks (measure s) (resync s)
  unfolding resync
  resync-Shrinks s untagged h = go _ (find_tag-Finds s.frame.buf s.pos 0 (s.frame.buf_len - 1))
    where
      last : (j : ℕ) → j ≡ 0 + (s.frame.buf_len - 1) → (j == s.frame.buf_len - 1) ≡ true
      last j e = ground arith

      left : ℕ → Bool → ℕ
      left i found = if found then s.frame.buf_len - i else s.frame.buf_len

      on : ℕ × Bool → Outcome (Round W)
      on (i, found) =
          if i == left i found - 1
          then ret (breaks (record s { frame = clear s.frame }))
          else ret (
              goes_on
                (record s { frame = record (s.frame) { buf_len = left i found }; pos = s.pos + i }))

      go :
          (o : Outcome (ℕ × Bool))
          → Finds s.frame.buf s.pos 0 (s.frame.buf_len - 1) o
          → Shrinks (measure s) (o >>= on)
      go _ (finds j _ t) = elim (Bool-cases (j == s.frame.buf_len - j - 1)) [
        | inl e ↦ rw e (over _)
        | inr e ↦ rw e (down _ (omega (arith, tag-ahead s.frame.buf s.pos j untagged t)))
      ]
      go _ (misses j e) = rw (last j e) (over _)
      go _ strays = wild

module _ {ℓ} {W : Type ℓ} (deliver : Msg → W → Outcome W)
    (ending : (p : Msg) (w : W) → deliver p w ≢ stuck) where
  whole_packet-Shrinks :
      (s : Loop W) (size : ℕ)
      → 27 ≤ size
      → 27 ≤ s.frame.buf_len
      → Shrinks (measure s) (whole_packet deliver s size)
  unfolding whole_packet bufalloc
  whole_packet-Shrinks s size h k = elim (Bool-cases (next_answer s.answers).0) [
    | inl e ↦ rw e (
        Shrinks-bind _ (slice s.frame.buf s.pos size) _ (slice-runs _ _ _) λ src _.
          Shrinks-bind _ _ _ (poke-runs _ _ _) λ block _.
            Shrinks-bind _ _ _ (ending _ _)
              λ w _. down _ (omega (arith, answers-shorter s.answers)))
    | inr e ↦ rw e (down _ (omega (arith, refused-shorter s.answers e)))
  ]

  rest_packet-Shrinks :
      (s : Loop W)
      → 1 ≤ s.frame.less_pkt_len
      → s.frame.less_pkt_len ≤ s.frame.buf_len
      → Shrinks (measure s) (rest_packet deliver s)
  unfolding rest_packet
  rest_packet-Shrinks s h k =
      Shrinks-bind _ (slice s.frame.buf s.pos s.frame.less_pkt_len) _ (slice-runs _ _ _) λ src _.
        Shrinks-bind _ _ _ (poke-runs _ _ _)
          λ block _. Shrinks-bind _ _ _ (ending _ _) λ w _. down _ (omega arith)

  packet-Shrinks : (s : Loop W) → 27 ≤ s.frame.buf_len → Shrinks (measure s) (packet deliver s)
  unfolding packet
  packet-Shrinks s h = Shrinks-bind _ (peek16 s.frame.buf (s.pos + 24)) _ (peek16-runs _ _) λ w _.
      elim (Bool-cases (leb (htons w + 27) s.frame.buf_len)) [
        | inl e ↦ rw e (whole_packet-Shrinks s (htons w + 27) (omega arith) h)
        | inr e ↦ rw e (part_packet-Shrinks s (htons w + 27))
      ]

  round-Shrinks : (s : Loop W) → 27 ≤ s.frame.buf_len → Shrinks (measure s) (round deliver s)
  unfolding round
  round-Shrinks s h = elim (Bool-cases (s.frame.less_pkt_len == 0)) [
    | inl idle ↦ rw idle (
        Shrinks-bind _ (tag_at s.frame.buf s.pos) _ (tag_at-runs _ _)
          (elim [ true ↦ λ _. packet-Shrinks s h | false ↦ λ e. resync-Shrinks s e h ]))
    | inr part ↦ elim (Bool-cases (leb s.frame.less_pkt_len s.frame.buf_len)) [
      | inl enough ↦
          rw (part, enough)
            (rest_packet-Shrinks s (nonzero s.frame.less_pkt_len part)
              (leb→le s.frame.less_pkt_len s.frame.buf_len enough))
      | inr few ↦ rw (part, few) (more_packet-Shrinks s h)
    ]
  ]

  loop-runs : (n : ℕ) (s : Loop W) → measure s < n → loop deliver n s ≢ stuck
  unfolding loop
  loop-runs zero s h = absurd (omega arith)
  loop-runs (suc n) s h = elim (Bool-cases (ltb s.frame.buf_len 27)) [
    | inl short ↦ rw short cc
    | inr long ↦
        rw long
          (next (round deliver s) (loop-runs n) (round-Shrinks s (ltb→ge s.frame.buf_len 27 long)))
  ]
    where
      next :
          (o : Outcome (Round W))
          → ((t : Loop W) → measure t < n → loop deliver n t ≢ stuck)
          → Shrinks (measure s) o
          → (o >>= elim [ goes_on t ↦ loop deliver n t | breaks t ↦ ret t ]) ≢ stuck
      next _ k (down t e) = k t (omega arith)
      next _ k (over t) = cc
      next _ k wild = cc

  -- malloc answers as the list says, and behind it grants what is asked. A connection is in any
  -- state, and each delivery comes to an end: then so does the loop of `parse`, in at most as many
  -- rounds, and one more, as it has bytes in its buffer and malloc refuses. `loop` answers stuck
  -- where its fuel, the number of rounds, is not enough.
  pub loop-ends :
      (f : Frame) (answers : List Bool) (w : W)
      → loop deliver
          (f.buf_len + refusals answers + 1)
          (record { frame = f; pos = 0; answers = answers; world = w })
        ≢ stuck
  loop-ends f answers w = loop-runs _ _ (omega arith)

  bind-runs {κ} :
      {A : Type κ} (o : Outcome A) (f : A → Outcome (Loop W))
      → o ≢ stuck
      → ((a : A) → f a ≢ stuck)
      → (o >>= f) ≢ stuck
  bind-runs (ret a) f h k = k a
  bind-runs fault f h k = cc
  bind-runs stuck f h k = absurd (h refl)

  compact-runs : (s : Loop W) → compact s ≢ stuck
  unfolding compact
  compact-runs s = elim (Bool-cases (s.frame.buf_len == 0 || s.pos == 0)) [
    | inl e ↦ rw e cc
    | inr e ↦ rw e (
        bind-runs (slice s.frame.buf s.pos s.frame.buf_len) _ (slice-runs _ _ _)
          (λ src. bind-runs _ _ (poke-runs _ _ _) (λ block. cc)))
  ]

  fewer : (answers : List Bool) → refusals answers ≤ length answers
  fewer [] = omega arith
  fewer (true ∷ answers) = omega (arith, fewer answers)
  fewer (false ∷ answers) = omega (arith, fewer answers)

  -- The fuel that `parse` has is never used up.
  pub parse-ends : (f : Frame) (answers : List Bool) (w : W) → parse deliver f answers w ≢ stuck
  unfolding parse
  parse-ends f answers w = bind-runs _ _ (loop-runs _ _ (omega (arith, fewer answers))) compact-runs
