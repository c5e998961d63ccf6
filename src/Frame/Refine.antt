-- ===== src/Frame/Refine.antt =====
-- `TcpServer::parse` implements `scan`: what it delivers, in which order, and what it keeps, is a
-- function of the bytes that wait, wherever they stand.
use snframe.Base.{
  ℕ, suc, ◌+◌, ◌≤◌, ◌<◌, ◌≡◌, ◌⊎◌, List, [], ◌++◌, length, take, lt→ltb, le→ltb, ◌==◌,
  if◌then◌else◌, Outcome, ret, fault, stuck, ◌>>=◌,
}
use snframe.Packet.{Msg, bytes}
use snframe.Frame.{Loop, goes_on, breaks, round, loop, recv_buf_len}
use snframe.Frame.Steps.{waiting}
use snframe.Frame.Partial.{Partial}

-- The variables of the loop are sound, and malloc will not fail: the bytes that wait lie in the buffer, and `pkt` holds nothing
-- or a part of a packet.
pub record IsLoop {ℓ} {W : Type ℓ} (s : Loop W) : Type ℓ where
  pub full : length s.frame.buf ≡ recv_buf_len
  pub inside : s.pos + s.frame.buf_len ≤ recv_buf_len
  pub calm : s.answers ≡ []
  pub part : (s.frame.less_pkt_len ≡ 0) ⊎ Partial s.frame

module _ {ℓ} {W : Type ℓ} where
  -- All bytes that have arrived and are not delivered.
  abbrev pub pending : Loop W → List ℕ
  pending s =
      if s.frame.less_pkt_len == 0
      then waiting s
      else take s.frame.pkt.m_len (bytes s.frame.pkt.m_data) ++ waiting s

  -- The loop has come to the end that `scan` has come to.
  pub data Refines : Outcome (Loop W) → Outcome (List ℕ × W) → Type ℓ where
    ends :
        (t : Loop W) (rest : List ℕ)
        → IsLoop t
        → pending t ≡ rest
        → Refines (ret t) (ret (rest, t.world))
    faults : Refines fault fault
    runs_out : Refines stuck stuck

  pub refine-bind :
      (o : Outcome W) (f : W → Outcome (Loop W)) (g : W → Outcome (List ℕ × W))
      → ((w : W) → Refines (f w) (g w))
      → Refines (o >>= f) (o >>= g)
  refine-bind (ret w) f g h = h w
  refine-bind fault f g h = faults
  refine-bind stuck f g h = runs_out

module _ {ℓ} {W : Type ℓ} (deliver : Msg → W → Outcome W) (n : ℕ) (s : Loop W) where
  pub loop-ends : s.frame.buf_len < 27 → loop deliver (suc n) s ≡ ret s
  unfolding loop
  loop-ends h = rw (lt→ltb s.frame.buf_len 27 h)

  pub loop-breaks :
      (t : Loop W)
      → 27 ≤ s.frame.buf_len
      → round deliver s ≡ ret (breaks t)
      → loop deliver (suc n) s ≡ ret t
  unfolding loop
  loop-breaks t h e = rw (le→ltb s.frame.buf_len 27 h, e)

  pub loop-goes_on :
      (t : Loop W)
      → 27 ≤ s.frame.buf_len
      → round deliver s ≡ ret (goes_on t)
      → loop deliver (suc n) s ≡ loop deliver n t
  unfolding loop
  loop-goes_on t h e = rw (le→ltb s.frame.buf_len 27 h, e)

  pub loop-delivers :
      (o : Outcome W) (t : W → Loop W)
      → 27 ≤ s.frame.buf_len
      → round deliver s ≡ (o >>= λ w. ret (goes_on (t w)))
      → loop deliver (suc n) s ≡ (o >>= λ w. loop deliver n (t w))
  unfolding loop
  loop-delivers (ret w) t h e = rw (le→ltb s.frame.buf_len 27 h, e)
  loop-delivers fault t h e = rw (le→ltb s.frame.buf_len 27 h, e)
  loop-delivers stuck t h e = rw (le→ltb s.frame.buf_len 27 h, e)
