-- ===== src/Conn/Write.antt =====
-- `Connection::write` of src/core/Connection.cpp: which bytes the kernel gets, and when the loop comes
-- to its end.
use snframe.Base.{
  ℕ, ◌+◌, ◌-◌, ◌≤◌, ◌<◌, ◌≡◌, ◌≢◌, refl, min, Bool-cases, inl, inr, ◌⊎◌, false, List, [], ◌∷◌, ◌==◌,
  ==_iff, if◌then◌else◌, Outcome, ret, ◌>>=◌, arith,
}
use snframe.Conn.{
  Sending, Send, send_failed, send_again, sends, IoResult, io_error, io_closed, io_finish, io_again,
  advance, write,
}
use snframe.Conn.Pieces.{
  IsSending, todo, Follows, Follows-trans, next_pkt-cases, left, partly, fully, advance-runs,
  partly-Follows, fully-Follows,
}

-- What a call has done: it has come to an end with `t` and `r`.
abbrev pub Written : Sending → Outcome (Sending × IoResult) → Type 0
Written s o =
    (t : Sending) × (r : IoResult) × (o ≡ ret (t, r))
    × Follows s t
    × ((r ≢ io_finish) ⊎ (todo t ≡ []))

-- After `t`, the same for `s`.
Written-before :
    (s t : Sending) (o : Outcome (Sending × IoResult)) → Follows s t → Written t o → Written s o
Written-before s t o f (u, r, e, g, d) = (u, r, e, Follows-trans s t u f g, d)

-- Nothing is left to send.
idle-Written : (s : Sending) → IsSending s → todo s ≡ [] → Written s (ret (s, io_finish))
idle-Written s h d = (s, io_finish, refl, record { sound = h; same = refl }, inr d)

-- A round that takes `n` bytes at least.
write-takes :
    (s : Sending) (answers : List Send) (k : ℕ)
    → IsSending s
    → s.finish ≡ false
    → ((t : Sending) → IsSending t → Written t (write answers t))
    → Written s (
        let n = min k (s.out_pkt.m_len - s.send_len) in
        if n == 0 then ret (s, io_closed) else advance s n >>= write answers)
write-takes s answers k h busy rest =
    elim (Bool-cases (min k (s.out_pkt.m_len - s.send_len) == 0)) [
      | inl e ↦ (s, io_closed, rw e refl, record { sound = h; same = refl }, inl (λ p. cc))
      | inr e ↦
          rw (e, advance-runs s h busy n fit, ◌>>=◌)
            (elim (Bool-cases (s.send_len + n == s.out_pkt.m_len)) [
              | inl last ↦
                  let f =
                    fully-Follows s h busy n ((==_iff (s.send_len + n) s.out_pkt.m_len).0 last) in
                  rw last
                    (Written-before s (fully s h busy n) _ f (rest (fully s h busy n) f.sound))
              | inr more ↦
                  let f =
                    partly-Follows s h busy n (below (s.send_len + n) s.out_pkt.m_len fit more) in
                  rw more
                    (Written-before s (partly s h busy n) _ f (rest (partly s h busy n) f.sound))
            ])
    ]
  where
    n : ℕ
    n = min k (s.out_pkt.m_len - s.send_len)

    fit : s.send_len + n ≤ s.out_pkt.m_len
    fit = omega (arith, left s h busy)

    below : (a b : ℕ) → a ≤ b → (a == b) ≡ false → a < b
    below a b le e = ground arith

-- For packets that lie in their blocks and are not empty, and for all answers of the kernel: `write`
-- never reads outside a block and comes to an end; what the kernel has taken and what is still to be
-- sent is, byte for byte and in order, what it was, also when a packet goes out in pieces; and
-- IO_FINISH is answered only where nothing is left.
pub write-Follows :
    (answers : List Send) (s : Sending)
    → IsSending s
    → (t : Sending) × (r : IoResult) × (write answers s ≡ ret (t, r))
      × Follows s t
      × ((r ≢ io_finish) ⊎ (todo t ≡ []))
unfolding write
write-Follows [] s h = elim (next_pkt-cases s h) [
  | inl (t, e, f, busy, w, same) ↦ (t, io_again, rw e refl, f, inl (λ p. cc))
  | inr (e, none_left, idle) ↦ rw e (idle-Written s h none_left)
]
write-Follows (send_failed ∷ answers) s h = elim (next_pkt-cases s h) [
  | inl (t, e, f, busy, w, same) ↦ (
    record t { send_fail_pkts = t.send_fail_pkts + 1 },
    io_error,
    rw e refl,
    record {
      sound = record { queue = f.sound.queue; current = f.sound.current; place = f.sound.place };
      same = f.same;
    },
    inl (λ p. cc),
  )
  | inr (e, none_left, idle) ↦ rw e (idle-Written s h none_left)
]
write-Follows (send_again ∷ answers) s h = elim (next_pkt-cases s h) [
  | inl (t, e, f, busy, w, same) ↦ (t, io_again, rw e refl, f, inl (λ p. cc))
  | inr (e, none_left, idle) ↦ rw e (idle-Written s h none_left)
]
write-Follows (sends k ∷ answers) s h = elim (next_pkt-cases s h) [
  | inl (t, e, f, busy, w, same) ↦
      rw e (Written-before s t _ f (write-takes t answers k f.sound busy (write-Follows answers)))
  | inr (e, none_left, idle) ↦ rw e (idle-Written s h none_left)
]
