-- ===== src/Conn/Pieces.antt =====
-- The steps of `Connection::write` of src/core/Connection.cpp: a packet taken from the queue, and a
-- piece of it handed to the kernel.
use snframe.Base.{
  ℕ, zero, suc, ◌+◌, ◌-◌, ◌≤◌, ◌<◌, ◌≡◌, refl, sym, ap, ◌∙◌, Bool, Bool-cases, inl, inr, ◌⊎◌, true,
  false, List, [], ◌∷◌, ◌++◌, length, take, drop, length-take, length-drop, take-append-drop,
  drop-drop, drop-take, take-take, le→leb, ◌==◌, if◌then◌else◌, ret, arith,
}
use mathlib.Core.Bool.{false≢true}
use mathlib.Core.List.{append_assoc}
use snframe.Memory.{slice}
use snframe.Packet.{Msg, bytes}
use snframe.Conn.{Sending, next_pkt, pop, advance}

-- The bytes of a packet.
abbrev pub content : Msg → List ℕ
content m = take m.m_len (bytes m.m_data)

drop-all : (xs : List ℕ) (n : ℕ) → length xs ≤ n → drop n xs ≡ []
drop-all [] zero h = refl
drop-all [] (suc n) h = refl
drop-all (x ∷ xs) zero h = absurd (omega arith)
drop-all (x ∷ xs) (suc n) h = drop-all xs n (omega arith)

-- A packet that is not empty and lies in its block.
pub record Sendable (m : Msg) : Type 0 where
  pub fits : m.m_len ≤ length (bytes m.m_data)
  pub some_bytes : 1 ≤ m.m_len

pub data AllSendable : List Msg → Type 0 where
  all_nil : AllSendable []
  all_cons : (m : Msg) (q : List Msg) → Sendable m → AllSendable q → AllSendable (m ∷ q)

head-Sendable : (m : Msg) (q : List Msg) → AllSendable (m ∷ q) → Sendable m
head-Sendable m q (all_cons _ _ h hs) = h

tail-Sendable : (m : Msg) (q : List Msg) → AllSendable (m ∷ q) → AllSendable q
tail-Sendable m q (all_cons _ _ h hs) = hs

-- A packet is begun and not done, or there is none.
pub record IsSending (s : Sending) : Type 0 where
  pub queue : AllSendable s.out_buffer
  pub current : (s.finish ≡ true) ⊎ Sendable s.out_pkt
  pub place : if s.finish then s.send_len ≡ 0 else s.send_len < s.out_pkt.m_len

abbrev pub queued : List Msg → List ℕ
queued [] = []
queued (m ∷ q) = content m ++ queued q

-- The bytes that are still to be sent.
abbrev pub todo : Sending → List ℕ
todo s = (if s.finish then [] else drop s.send_len (content s.out_pkt)) ++ queued s.out_buffer

-- `t` comes after `s`: nothing is lost, doubled or out of order.
pub record Follows (s t : Sending) : Type 0 where
  pub sound : IsSending t
  pub same : t.wire ++ todo t ≡ s.wire ++ todo s

pub Follows-trans : (s t u : Sending) → Follows s t → Follows t u → Follows s u
Follows-trans s t u f g = record { sound = g.sound; same = g.same ∙ f.same }

-- The two answers of `next_pkt`.
pub next_pkt-cases :
    (s : Sending)
    → IsSending s
    → ((t : Sending) × (next_pkt s ≡ (t, true))
        × Follows s t
        × (t.finish ≡ false)
        × (t.wire ≡ s.wire)
        × (todo t ≡ todo s))
      ⊎ ((next_pkt s ≡ (s, false)) × (todo s ≡ []) × (s.finish ≡ true))
unfolding next_pkt pop
next_pkt-cases s h = go s.out_buffer s.finish refl refl
  where
    at_front : s.finish ≡ true → s.send_len ≡ 0
    at_front f = rw f at h.place

    go :
        (q : List Msg) (b : Bool)
        → s.out_buffer ≡ q
        → s.finish ≡ b
        → ((t : Sending) × (next_pkt s ≡ (t, true))
            × Follows s t
            × (t.finish ≡ false)
            × (t.wire ≡ s.wire)
            × (todo t ≡ todo s))
          ⊎ ((next_pkt s ≡ (s, false)) × (todo s ≡ []) × (s.finish ≡ true))
    go q false e f = inl (s, rw f refl, record { sound = h; same = refl }, f, refl, refl)
    go [] true e f = inr (rw (e, f) refl, rw (e, f) refl, f)
    go (m ∷ q) true e f = inl (
      record s { out_buffer = q; out_pkt = m; finish = false },
      rw (e, f) refl,
      record {
        sound = record {
          queue = tail-Sendable m q (rw e at h.queue);
          current = inr (head-Sendable m q (rw e at h.queue));
          place = omega (arith, at_front f, (head-Sendable m q (rw e at h.queue)).some_bytes);
        };
        same = rw (e, f, at_front f) refl;
      },
      refl,
      refl,
      rw (e, f, at_front f) refl,
    )

module _ (s : Sending) (h : IsSending s) (busy : s.finish ≡ false) where
  packet-Sendable : Sendable s.out_pkt
  packet-Sendable = elim h.current [ inl e ↦ absurd (false≢true (sym busy ∙ e)) | inr p ↦ p ]

  pub left : s.send_len < s.out_pkt.m_len
  left = rw busy at h.place

  -- What the kernel takes of the current packet.
  abbrev pub taken : ℕ → List ℕ
  taken n = take n (drop s.send_len (bytes s.out_pkt.m_data))

  taken-content :
      (n : ℕ)
      → s.send_len + n ≤ s.out_pkt.m_len
      → taken n ++ drop (s.send_len + n) (content s.out_pkt) ≡ drop s.send_len (content s.out_pkt)
  taken-content n fit =
      rw (front, drop-drop n s.send_len (content s.out_pkt)) at
        (take-append-drop n (drop s.send_len (content s.out_pkt)))
    where
      front : take n (drop s.send_len (content s.out_pkt)) ≡ taken n
      front =
          ap (take n) (drop-take (bytes s.out_pkt.m_data) s.send_len s.out_pkt.m_len (omega arith))
          ∙ take-take (drop s.send_len (bytes s.out_pkt.m_data)) n (s.out_pkt.m_len - s.send_len)
              (omega arith)

  length-taken : (n : ℕ) → s.send_len + n ≤ s.out_pkt.m_len → length (taken n) ≡ n
  length-taken n fit = omega (
    arith,
    length-take n (drop s.send_len (bytes s.out_pkt.m_data)),
    length-drop s.send_len (bytes s.out_pkt.m_data),
    packet-Sendable.fits,
  )

  -- The states after a part of the packet, and after the last part.
  abbrev pub partly : ℕ → Sending
  partly n = record s { send_len = s.send_len + n; wire = s.wire ++ taken n }

  abbrev pub fully : ℕ → Sending
  fully n = record s {
    send_len = 0;
    finish = true;
    send_success_pkts = s.send_success_pkts + 1;
    wire = s.wire ++ taken n;
  }

  pub advance-runs :
      (n : ℕ)
      → s.send_len + n ≤ s.out_pkt.m_len
      → advance s n ≡ ret (if s.send_len + n == s.out_pkt.m_len then fully n else partly n)
  unfolding advance slice
  advance-runs n fit =
      rw
        (le→leb (s.send_len + n) (length (bytes s.out_pkt.m_data))
          (omega (arith, packet-Sendable.fits)))
        (elim (Bool-cases (s.send_len + n == s.out_pkt.m_len)) [ inl e ↦ rw e | inr e ↦ rw e ])

  partly-same :
      (n : ℕ)
      → s.send_len + n ≤ s.out_pkt.m_len
      → (s.wire ++ taken n) ++ (drop (s.send_len + n) (content s.out_pkt) ++ queued s.out_buffer)
        ≡ s.wire ++ todo s
  partly-same n fit =
      append_assoc s.wire (taken n) _
      ∙ rw busy (
          ap (λ xs. s.wire ++ xs)
            (sym (
                append_assoc (taken n) (drop (s.send_len + n) (content s.out_pkt))
                  (queued s.out_buffer))
              ∙ ap (λ xs. xs ++ queued s.out_buffer) (taken-content n fit)))

  pub partly-Follows : (n : ℕ) → s.send_len + n < s.out_pkt.m_len → Follows s (partly n)
  partly-Follows n fit = record {
    sound = record { queue = h.queue; current = h.current; place = rw busy fit };
    same = rw busy (rw busy at (partly-same n (omega arith)));
  }

  pub fully-Follows : (n : ℕ) → s.send_len + n ≡ s.out_pkt.m_len → Follows s (fully n)
  fully-Follows n fit = record {
    sound = record { queue = h.queue; current = inl refl; place = refl };
    same =
        rw
          (drop-all (content s.out_pkt) (s.send_len + n)
            (omega (arith, length-take s.out_pkt.m_len (bytes s.out_pkt.m_data))))
          at (partly-same n (omega arith));
  }
