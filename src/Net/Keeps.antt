-- ===== src/Net/Keeps.antt =====
-- What the callers of src/core/NetManager.cpp leave of a well-formed list of connections.
use snframe.Base.{
  ℕ, ◌≡◌, refl, sym, ap, ◌∙◌, Bool, inl, inr, true, false, not, ◌||◌, some, List, [], ◌∷◌, ◌++◌,
  ==_iff, arith,
}
use mathlib.Core.Path.{subst}
use snframe.Packet.{Msg}
use snframe.Net.{
  ConnState, Connection, NetManager, NetEvent, state_connected, added, is_connected, ae_writable,
  ae_readable, add_connection, close_connection, add_file_event, del_events, del_file_event,
  send_sock,
}
use snframe.Net.Send.{any, has_fd, send_to-none, send_sock-first}
use snframe.Net.Drop.{unarmed, unarmed-fd}
use snframe.Net.Tcp.{states, set_conn_state, drop_connection, ae_both}
use snframe.Net.Waiting.{
  unique, unarmed-sound, any-append, all_sound-append, unique-replace, split_at_wanted,
}
use snframe.Net.Steps.{on_fd, on_conn, new_connection, set_node_info, answer_req}
use snframe.Net.Places.{
  arm, states-on_fd, add_events-on_fd, del_events-on_fd, on_fd-on_fd, on_fd-first, on_fd-none,
  erase_fd_sound, unique-erase,
}
use snframe.Net.Sound.{IsConns, on_fd-IsConns, evs-small, sent-IsConns, all_sound-parts}

-- A connection that is authenticated: the ids and the state.
abbrev pub greeted : ℕ → ℕ → Connection → Connection
greeted sid nid c = record c { sid = sid; nid = nid; state = state_connected }

module _ (sid nid : ℕ) (msg : Msg) (events : List NetEvent) where
  answered-first :
      (before : List Connection) (c : Connection) (after : List Connection)
      → any (has_fd c.fd) before ≡ false
      → IsConns (before ++ c ∷ after)
      → IsConns
          (send_sock msg c.fd (record {
            conns = on_fd c.fd (greeted sid nid) (before ++ c ∷ after);
            events = events;
          })).0.conns
  answered-first before c after none_before (h, u) =
      let (a, x, b) = all_sound-parts before c after h in
      subst (λ cs. IsConns (send_sock msg c.fd (record { conns = cs; events = events })).0.conns)
        (sym (on_fd-first (greeted sid nid) before c after none_before))
        (subst (λ r. IsConns r.0.conns)
          (sym (send_sock-first msg c.fd before (greeted sid nid c) after events none_before refl))
          (sent-IsConns true msg before (greeted sid nid c) after events
            (events ++ added c.fd ae_writable ∷ []) (evs-small c x) refl a b
            (unique-replace before c (greeted sid nid c) after refl u)))

  answered-IsConns :
      (fd : ℕ) (cs : List Connection)
      → IsConns cs
      → IsConns
          (send_sock msg fd
            (record { conns = on_fd fd (greeted sid nid) cs; events = events })).0.conns
  unfolding send_sock
  answered-IsConns fd cs v = elim (split_at_wanted (has_fd fd) cs) [
    | inl e ↦
        subst (λ xs. IsConns (send_sock msg fd (record { conns = xs; events = events })).0.conns)
          (sym (on_fd-none fd (greeted sid nid) cs e))
          (subst (λ r. IsConns r.0.conns)
            (sym (
              send_to-none (has_fd fd) is_connected msg (record { conns = cs; events = events }) e))
            v)
    | inr f ↦
        let same : f.found.fd ≡ fd = (==_iff f.found.fd fd).0 f.wanted_found in
        subst
          (λ i.
            IsConns
              (send_sock msg i
                (record { conns = on_fd i (greeted sid nid) cs; events = events })).0.conns)
          same
          (subst
            (λ xs.
              IsConns
                (send_sock msg f.found.fd (record {
                  conns = on_fd f.found.fd (greeted sid nid) xs;
                  events = events;
                })).0.conns)
            (sym f.splits)
            (answered-first f.before f.found f.after
              (subst (λ i. any (has_fd i) f.before ≡ false) (sym same) f.none_before)
              (subst IsConns f.splits v)))
  ]

pub answer_req-IsConns :
    (fd sid nid : ℕ) (msg : Msg) (n : NetManager)
    → IsConns n.conns
    → IsConns (answer_req fd sid nid (some msg) n).conns
unfolding answer_req set_conn_state set_node_info on_conn
answer_req-IsConns fd sid nid msg n v =
    subst (λ cs. IsConns (send_sock msg fd (record { conns = cs; events = n.events })).0.conns)
      (sym (
        states-on_fd state_connected fd _
        ∙ on_fd-on_fd fd (λ c. record c { state = state_connected })
            (λ c. record c { sid = sid; nid = nid }) n.conns (λ c. refl)))
      (answered-IsConns sid nid msg n.events fd n.conns v)

unique-push :
    (cs : List Connection) (d : Connection)
    → any (has_fd d.fd) cs ≡ false
    → unique cs ≡ true
    → unique (cs ++ d ∷ []) ≡ true
unique-push [] d fresh u = refl
unique-push (c ∷ cs) d fresh u =
    ground (arith, unique-push cs d, any-append (has_fd c.fd) cs (d ∷ []))

pub or_true : (b : Bool) → (b || true) ≡ true
or_true b = ground arith

-- A connection that is added behind the others, with the readable event.
pub new-IsConns :
    (s : ConnState) (fd : ℕ) (n : NetManager)
    → any (has_fd fd) n.conns ≡ false
    → IsConns n.conns
    → IsConns
        (add_file_event fd ae_readable
          (add_connection (record (new_connection fd) { state = s }) n)).conns
unfolding add_file_event add_connection new_connection
new-IsConns s fd n fresh (h, u) =
    subst IsConns
      (sym (add_events-on_fd fd ae_readable _ ∙ on_fd-first (arm ae_readable) n.conns c [] fresh))
      (
        all_sound-append n.conns (arm ae_readable c ∷ [])
            ∙ rw (h, or_true (not (is_connected s))) refl,
        unique-push n.conns (arm ae_readable c) fresh u,
      )
  where
    c : Connection
    c = record (new_connection fd) { state = s }

unarmed-IsConns :
    (s : ConnState) (fd : ℕ) (cs : List Connection)
    → is_connected s ≡ false
    → IsConns cs
    → IsConns (del_events fd ae_both (states s fd cs)).0
unarmed-IsConns s fd cs e v =
    subst IsConns
      (sym (
        del_events-on_fd fd ae_both (states s fd cs)
        ∙ ap (on_fd fd (unarmed ae_both)) (states-on_fd s fd cs)
        ∙ on_fd-on_fd fd (unarmed ae_both) (λ c. record c { state = s }) cs (λ c. refl)))
      (on_fd-IsConns fd (λ c. unarmed ae_both (record c { state = s })) cs
        (λ c. unarmed-fd ae_both (record c { state = s }))
        (λ c h. (unarmed-sound (record c { state = s }) (evs-small c h) (ground arith)).1) v)

-- States and events that are taken away, then the connection if it was accepted.
pub drop-IsConns :
    (s : ConnState) (client : Bool) (fd : ℕ) (n : NetManager)
    → is_connected s ≡ false
    → IsConns n.conns
    → IsConns (drop_connection s client fd n).conns
unfolding drop_connection set_conn_state del_file_event close_connection
drop-IsConns s true fd n e v = unarmed-IsConns s fd n.conns e v
drop-IsConns s false fd n e v =
    let (h, u) = unarmed-IsConns s fd n.conns e v in (erase_fd_sound fd _ h, unique-erase fd _ u)
