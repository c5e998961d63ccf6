-- ===== src/Frame/Refused.antt =====
-- The loop of `TcpServer::parse` of src/core/TcpServer.cpp while malloc refuses the packet that stands
-- in the buffer.
use snframe.Base.{
  ℕ, zero, suc, ◌+◌, ◌≤◌, ◌≡◌, refl, true, false, Bool, List, [], ◌∷◌, ◌++◌, ltb, le→leb, Outcome,
  ret, ◌>>=◌, arith,
}
use snframe.Memory.{peek16, htons}
use snframe.Packet.{Msg, bufalloc}
use snframe.Frame.{Loop, loop, round, packet, whole_packet, tag_at, goes_on}

-- malloc refuses as often.
abbrev pub refused : ℕ → List Bool
refused zero = []
refused (suc n) = false ∷ refused n

module _ {ℓ} {W : Type ℓ} (deliver : Msg → W → Outcome W) (s : Loop W) (w : ℕ)
    (idle : s.frame.less_pkt_len ≡ 0) (tag : tag_at s.frame.buf s.pos ≡ ret true)
    (size : peek16 s.frame.buf (s.pos + 24) ≡ ret w) (there : htons w + 27 ≤ s.frame.buf_len) where
  round-refused :
      (answers : List Bool)
      → round deliver (record s { answers = false ∷ answers })
        ≡ ret (goes_on (record s { answers = answers }))
  unfolding round packet whole_packet bufalloc
  round-refused answers =
      rw (idle, tag, ◌>>=◌, size, ◌>>=◌, le→leb (htons w + 27) s.frame.buf_len there) refl

  -- No packet is half copied, and one stands whole in the buffer. While malloc refuses it the loop
  -- makes a round for each refusal and changes nothing: after `n` of them it is where it was. With no
  -- rounds left (`m` = 0) it is still in the loop, for every `n`.
  pub loop-refused :
      (n m : ℕ) (answers : List Bool)
      → loop deliver (n + m) (record s { answers = refused n ++ answers })
        ≡ loop deliver m (record s { answers = answers })
  unfolding loop
  loop-refused zero m answers = rw (zero_plus m) refl
    where
      zero_plus : (k : ℕ) → 0 + k ≡ k
      zero_plus k = omega arith
  loop-refused (suc n) m answers =
      rw (suc_plus n m, long, round-refused (refused n ++ answers), ◌>>=◌)
        (loop-refused n m answers)
    where
      long : ltb s.frame.buf_len 27 ≡ false
      long = ground (arith, there)

      suc_plus : (a b : ℕ) → suc a + b ≡ suc (a + b)
      suc_plus a b = omega arith
