-- ===== src/Net/Send.antt =====
-- Which connection gets a message in src/core/NetManager.cpp, and what the event loop is asked for.
use Prim.Native.Nat.{bit_and, bit_or}
use snframe.Base.{
  ℕ, ◌≡◌, refl, ap, ◌∙◌, Bool, Bool-cases, inl, inr, true, false, ◌&&◌, ◌||◌, none, some, List, [],
  ◌∷◌, ◌++◌, ◌==◌, ==_iff, if◌then◌else◌,
}
use mathlib.Core.List.{append-nil}
use snframe.Packet.{Msg}
use snframe.Conn.{push}
use snframe.Net.{
  Connection, ConnState, NetManager, NetEvent, added, ae_writable, add_connection, erase_fd,
  close_connection, add_events, add_file_event, push_first, send_sock, is_connected, notify,
  with_calls, send_to,
}

abbrev pub any : (Connection → Bool) → List Connection → Bool
any p [] = false
any p (c ∷ cs) = p c || any p cs

abbrev pub has_fd : ℕ → Connection → Bool
has_fd fd c = c.fd == fd

-- A message behind the others of a connection.
abbrev pub queued : Connection → Msg → Connection
queued c msg = record c { out_buffer = push c.out_buffer msg }

-- The same, with the writable event added.
abbrev pub armed : Connection → Msg → Connection
armed c msg = record c { out_buffer = push c.out_buffer msg; evs = bit_or c.evs ae_writable }

pub or_false : (a b : Bool) → (a || b) ≡ false → (a ≡ false) × (b ≡ false)
or_false true b e = cc
or_false false b e = (refl, e)

push_first-first :
    (wanted : Connection → Bool) (msg : Msg) (before : List Connection) (c : Connection)
    (after : List Connection)
    → any wanted before ≡ false
    → wanted c ≡ true
    → push_first wanted msg (before ++ c ∷ after) ≡ (some c, before ++ queued c msg ∷ after)
unfolding push_first
push_first-first wanted msg [] c after e f = rw f refl
push_first-first wanted msg (b ∷ bs) c after e f =
    let (here, later) = or_false (wanted b) (any wanted bs) e in
    rw (here, push_first-first wanted msg bs c after later f) refl

push_first-none :
    (wanted : Connection → Bool) (msg : Msg) (cs : List Connection)
    → any wanted cs ≡ false
    → push_first wanted msg cs ≡ (none, cs)
unfolding push_first
push_first-none wanted msg [] e = refl
push_first-none wanted msg (c ∷ cs) e =
    let (here, later) = or_false (wanted c) (any wanted cs) e in
    rw (here, push_first-none wanted msg cs later) refl

add_events-first :
    (fd mask : ℕ) (before : List Connection) (c : Connection) (after : List Connection)
    → any (has_fd fd) before ≡ false
    → c.fd ≡ fd
    → add_events fd mask (before ++ c ∷ after) ≡ (
        if bit_and c.evs mask == 0
        then (before ++ record c { evs = bit_or c.evs mask } ∷ after, added fd mask ∷ [])
        else (before ++ c ∷ after, []))
unfolding add_events
add_events-first fd mask [] c after e f = rw ((==_iff c.fd fd).1 f) refl
add_events-first fd mask (b ∷ bs) c after e f =
    let (here, later) = or_false (has_fd fd b) (any (has_fd fd) bs) e in
    rw (here, add_events-first fd mask bs c after later f)
      (elim (Bool-cases (bit_and c.evs mask == 0)) [ inl z ↦ rw z refl | inr z ↦ rw z refl ])

-- The first connection that is wanted, where no connection before it has its descriptor, gets the
-- message behind its others, and the answer is 0. Where its state is ready and it is not waited for
-- to be writable, that event is added and asked for, once; nothing else changes.
pub send_to-first :
    (wanted : Connection → Bool) (ready : ConnState → Bool) (msg : Msg) (before : List Connection)
    (c : Connection) (after : List Connection) (events : List NetEvent)
    → any wanted before ≡ false
    → any (has_fd c.fd) before ≡ false
    → wanted c ≡ true
    → send_to wanted ready msg (record { conns = before ++ c ∷ after; events = events }) ≡ (
      (if ready c.state && (bit_and c.evs ae_writable == 0)
          then record {
            conns = before ++ armed c msg ∷ after;
            events = events ++ added c.fd ae_writable ∷ [];
          }
          else record { conns = before ++ queued c msg ∷ after; events = events }),
      true,
    )
unfolding send_to notify add_file_event
send_to-first wanted ready msg before c after events none_before no_fd f =
    ap (notify ready (record { conns = before ++ c ∷ after; events = events }))
      (push_first-first wanted msg before c after none_before f)
    ∙ elim (Bool-cases (ready c.state)) [
      | inl r ↦ rw r (
          ap
            (λ q. (
              with_calls (record { conns = before ++ queued c msg ∷ after; events = events }) q,
              true,
            ))
            (add_events-first c.fd ae_writable before (queued c msg) after no_fd refl)
          ∙ elim (Bool-cases (bit_and c.evs ae_writable == 0)) [
            | inl z ↦ rw z refl
            | inr z ↦ rw (z, append-nil events) refl
          ])
      | inr r ↦ rw r refl
    ]

-- Where no connection is wanted the answer is -1, and nothing changes.
pub send_to-none :
    (wanted : Connection → Bool) (ready : ConnState → Bool) (msg : Msg) (n : NetManager)
    → any wanted n.conns ≡ false
    → send_to wanted ready msg n ≡ (n, false)
unfolding send_to notify
send_to-none wanted ready msg n e = ap (notify ready n) (push_first-none wanted msg n.conns e)

erase_fd-push :
    (c : Connection) (cs : List Connection)
    → any (has_fd c.fd) cs ≡ false
    → erase_fd c.fd (cs ++ c ∷ []) ≡ cs
unfolding erase_fd
erase_fd-push c [] e = rw ((==_iff c.fd c.fd).1 refl) refl
erase_fd-push c (b ∷ bs) e =
    let (here, later) = or_false (has_fd c.fd b) (any (has_fd c.fd) bs) e in
    rw here (ap (◌∷◌ b) (erase_fd-push c bs later))

-- A connection is added whose descriptor no other has, and closed again: the list is what it was.
pub close-add :
    (c : Connection) (n : NetManager)
    → any (has_fd c.fd) n.conns ≡ false
    → close_connection c.fd (add_connection c n) ≡ n
unfolding close_connection add_connection
close-add c n e = ap (λ cs. record n { conns = cs }) (erase_fd-push c n.conns e)

-- `send_sock` to a descriptor: the first connection that has it gets the message and the answer is
-- 0. Only where it is connected, and not waited for already, it is waited for to be writable: on a
-- connection that is not yet authenticated the message waits.
pub send_sock-first :
    (msg : Msg) (fd : ℕ) (before : List Connection) (c : Connection) (after : List Connection)
    (events : List NetEvent)
    → any (has_fd fd) before ≡ false
    → c.fd ≡ fd
    → send_sock msg fd (record { conns = before ++ c ∷ after; events = events }) ≡ (
      (if is_connected c.state && (bit_and c.evs ae_writable == 0)
          then record {
            conns = before ++ armed c msg ∷ after;
            events = events ++ added fd ae_writable ∷ [];
          }
          else record { conns = before ++ queued c msg ∷ after; events = events }),
      true,
    )
unfolding send_sock
send_sock-first msg fd before c after events none_before e =
    send_to-first (has_fd fd) is_connected msg before c after events none_before (rw e none_before)
      ((==_iff c.fd fd).1 e)
    ∙ rw e refl
