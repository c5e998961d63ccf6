-- ===== src/Frame/Delivery.antt =====
-- What `TcpServer::parse` of src/core/TcpServer.cpp delivers and keeps, for a connection between two
-- calls.
use snframe.Base.{
  ℕ, zero, suc, ◌+◌, ◌-◌, ◌≤◌, ◌<◌, ◌≡◌, refl, ◌∙◌, Bool, inl, inr, ◌⊎◌, false, Bool-cases, List,
  [], ◌++◌, length, take, ◌==◌, ◌||◌, if◌then◌else◌, Outcome, ret, ◌>>=◌, arith,
}
use native.Mathlib.Decide.{dec_lt}
use snframe.Memory.{Block, put, poke-put, length-put}
use snframe.Packet.{Msg, bytes}
use snframe.Frame.{Frame, Loop, loop, parse, compact, recv_buf_len}
use snframe.Frame.Scan.{scan}
use snframe.Frame.Window.{window, length-window, slice-window, take-put}
use snframe.Frame.Steps.{waiting}
use snframe.Frame.Partial.{Partial}
use snframe.Frame.States.{IsReady}
use snframe.Frame.Refine.{IsLoop, pending, Refines, ends, faults, runs_out, loop-ends}
use snframe.Frame.Simulate.{Agrees}
use snframe.Frame.Parse.{step-short, step-idle, step-waits, step-rest, step-more}

add_one : (n : ℕ) → n + 1 ≡ suc n
add_one n = omega arith

-- A connection between two calls of `parse`: the bytes that wait stand at the front of the buffer.
pub record IsFrame (f : Frame) : Type 0 where
  pub full : length f.buf ≡ recv_buf_len
  pub inside : f.buf_len ≤ recv_buf_len
  pub part : (f.less_pkt_len ≡ 0) ⊎ Partial f

-- The bytes that have arrived and are not delivered.
abbrev pub kept : Frame → List ℕ
kept f =
    if f.less_pkt_len == 0
    then window f.buf 0 f.buf_len
    else take f.pkt.m_len (bytes f.pkt.m_data) ++ window f.buf 0 f.buf_len

-- The loop at its start.
abbrev pub start {ℓ} : {W : Type ℓ} → Frame → List Bool → W → Loop W
start f answers w = record { frame = f; pos = 0; answers = answers; world = w }

start-IsLoop {ℓ} : {W : Type ℓ} (f : Frame) (w : W) → IsFrame f → IsLoop (start f [] w)
start-IsLoop f w h = record {
  full = h.full;
  inside = omega (arith, h.inside);
  calm = refl;
  part = h.part;
}

module _ {ℓ} {W : Type ℓ} (deliver : Msg → W → Outcome W) where
  agrees : (n m : ℕ) → Agrees deliver n m
  agrees zero m t h ready fuel fuel' = absurd (omega arith)
  agrees (suc n) zero t h ready fuel fuel' = absurd (omega arith)
  agrees (suc n) (suc m) t h ready fuel fuel' = elim h.part [
    | inl idle ↦ elim (dec_lt t.frame.buf_len 27) [
      | yes short ↦ step-short deliver n m (agrees n m) t h fuel fuel' idle short
      | no long ↦ step-idle deliver n m (agrees n m) t h fuel fuel' idle (omega arith)
    ]
    | inr p ↦ elim (dec_lt t.frame.buf_len 27) [
      | yes short ↦ elim ready [
        | inl idle ↦ absurd (omega (arith, p.missing))
        | inr (inl long) ↦ absurd (omega arith)
        | inr (inr few) ↦ step-waits deliver n m (agrees n m) t h fuel fuel' p short few
      ]
      | no long ↦ elim (dec_lt t.frame.buf_len t.frame.less_pkt_len) [
        | yes few ↦
            step-more deliver n m (agrees n m) t h fuel fuel' p (n - 1) (omega arith) (omega arith)
              few
        | no enough ↦
            step-rest deliver n m (agrees n m) t h fuel fuel' p (omega arith) (omega arith)
      ]
    ]
  ]

  module _ (t : Loop W) (h : IsLoop t) where
    -- The buffer after the move to the front.
    abbrev moved : Block
    moved =
        if t.frame.buf_len == 0 || t.pos == 0 then t.frame.buf else put t.frame.buf 0 (waiting t)

    -- Only the buffer of the frame changes.
    abbrev pub compacted : Loop W
    compacted = record t { frame = record (t.frame) { buf = moved } }

    compact-runs : compact t ≡ ret compacted
    unfolding compact
    compact-runs = elim (Bool-cases (t.frame.buf_len == 0 || t.pos == 0)) [
      | inl still ↦ rw still
      | inr moves ↦ rw (
        moves,
        slice-window t.frame.buf t.pos t.frame.buf_len (omega (arith, h.inside, h.full)),
        ◌>>=◌,
        poke-put t.frame.buf 0 (waiting t) (
            omega (
              arith,
              h.inside,
              h.full,
              length-window t.frame.buf t.pos t.frame.buf_len (omega (arith, h.inside, h.full)),
            )),
      )
    ]

    length-moved : length moved ≡ recv_buf_len
    length-moved = elim (Bool-cases (t.frame.buf_len == 0 || t.pos == 0)) [
      | inl still ↦ rw still (h.full)
      | inr moves ↦ rw moves (length-put t.frame.buf 0 (waiting t) ∙ h.full)
    ]

    compacted-IsFrame : IsFrame compacted.frame
    compacted-IsFrame = record {
      full = length-moved;
      inside = omega (arith, h.inside);
      part = elim h.part [
        | inl idle ↦ inl idle
        | inr p ↦ inr (record {
          block = p.block;
          held = p.held;
          whole = p.whole;
          exact = p.exact;
          some_header = p.some_header;
          missing = p.missing;
          tag = p.tag;
          size = p.size;
        })
      ];
    }

    measured : length (waiting t) ≡ t.frame.buf_len
    measured = length-window t.frame.buf t.pos t.frame.buf_len (omega (arith, h.inside, h.full))

    all : 0 + length (waiting t) ≡ t.frame.buf_len
    all = omega (arith, measured)

    moves : 0 < t.frame.buf_len → 0 < t.pos → (t.frame.buf_len == 0 || t.pos == 0) ≡ false
    moves h k = ground arith

    front_put : window (put t.frame.buf 0 (waiting t)) 0 t.frame.buf_len ≡ waiting t
    front_put =
        rw all at (take-put t.frame.buf 0 (waiting t) (omega (arith, measured, h.inside, h.full)))

    waits-compacted : window moved 0 t.frame.buf_len ≡ waiting t
    waits-compacted = elim (dec_lt 0 t.frame.buf_len) [
      | no empty ↦ let e : t.frame.buf_len ≡ 0 = omega arith in rw e refl
      | yes some_wait ↦ elim (dec_lt 0 t.pos) [
        | no front ↦ let e : t.pos ≡ 0 = omega arith in rw e (ground arith)
        | yes behind ↦ rw (moves some_wait behind) front_put
      ]
    ]

    kept-compacted : kept compacted.frame ≡ pending t
    kept-compacted = rw waits-compacted refl

  compact-kept :
      (o : Outcome (Loop W)) (p : Outcome (List ℕ × W))
      → Refines o p
      → ((o >>= compact) >>= λ t. ret (kept t.frame, t.world)) ≡ p
  compact-kept _ _ (ends t rest h e) = rw (compact-runs t h, ◌>>=◌, kept-compacted t h, e) refl
  compact-kept _ _ faults = refl
  compact-kept _ _ runs_out = refl

  -- Where the loop comes to an end, the move leaves a sound connection, and nothing of the fuel is
  -- wanted.
  compact-IsFrame :
      (o : Outcome (Loop W)) (p : Outcome (List ℕ × W)) (t : Loop W)
      → Refines o p
      → (o >>= compact) ≡ ret t
      → IsFrame t.frame
  compact-IsFrame _ _ t (ends s rest h e) f =
      let same : compacted s h ≡ t = cc (f, compact-runs s h) in rw (← same) (compacted-IsFrame s h)
  compact-IsFrame _ _ t faults f = cc
  compact-IsFrame _ _ t runs_out f = cc

  -- The fuel of `parse` is enough for all that waits.
  loop-start :
      (f : Frame) (w : W)
      → IsFrame f
      → IsReady (start f [] w)
      → Refines
          (loop deliver (f.buf_len + 0 + 1) (start f [] w))
          (scan deliver (length (kept f) + 1) (kept f) w)
  loop-start f w h ready =
      agrees (f.buf_len + 0 + 1) (length (kept f) + 1) (start f [] w) (start-IsLoop f w h) ready
        (omega arith) (omega arith)

  -- For a connection between two calls and a malloc that does not fail: `parse` delivers what `scan`
  -- delivers of all the bytes that have arrived and are not delivered, in the same order, and keeps
  -- what `scan` keeps. Either no packet is half copied, or 27 bytes wait, or too few to finish it.
  pub parse-scan :
      (f : Frame) (w : W)
      → IsFrame f
      → IsReady (start f [] w)
      → (parse deliver f [] w >>= λ t. ret (kept t.frame, t.world))
        ≡ scan deliver (length (kept f) + 1) (kept f) w
  unfolding parse
  parse-scan f w h ready = compact-kept _ _ (loop-start f w h ready)

  -- Under the same conditions a call of `parse` that comes to an end leaves a connection that the next
  -- call can start from: the buffer whole, what waits inside it, a half copied packet consistent.
  pub parse-IsFrame :
      (f : Frame) (w : W) (t : Loop W)
      → IsFrame f
      → IsReady (start f [] w)
      → parse deliver f [] w ≡ ret t
      → IsFrame t.frame
  unfolding parse
  parse-IsFrame f w t h ready e = compact-IsFrame _ _ t (loop-start f w h ready) e

  -- Fewer than 27 bytes in the buffer, whatever malloc answers and whatever is half copied: `parse`
  -- changes nothing and delivers nothing, also where these bytes complete the packet.
  pub parse-short :
      (f : Frame) (answers : List Bool) (w : W)
      → f.buf_len < 27
      → parse deliver f answers w ≡ ret (start f answers w)
  unfolding parse compact
  parse-short f answers w h =
      rw
        (
          add_one (f.buf_len + length answers),
          loop-ends deliver (f.buf_len + length answers) (start f answers w) h,
        )
        (elim (Bool-cases (f.buf_len == 0)) [ inl e ↦ rw e | inr e ↦ rw e ])
