-- ===== src/Net/Sound.antt =====
-- Well-formed lists of connections, and what a sender of src/core/NetManager.cpp leaves of one.
use Prim.Native.Nat.{bit_and}
use snframe.Base.{
  ℕ, ◌≡◌, refl, sym, ◌∙◌, Bool, Bool-cases, inl, inr, true, false, not, ◌&&◌, List, [], ◌∷◌, ◌++◌,
  and_inv, ltb, ◌==◌, if◌then◌else◌, arith,
}
use mathlib.Core.Path.{subst}
use snframe.Packet.{Msg}
use snframe.Net.{
  ConnState, Connection, NetManager, NetEvent, state_auth, state_connected, state_error,
  state_closed, state_none, added, is_connected, is_connected_or_auth, ae_writable, send_to,
}
use snframe.Net.Send.{any, queued, armed, send_to-first, send_to-none}
use snframe.Net.Waiting.{
  waits, sound, all_sound, unique, armed-sound, queued-sound, all_sound-append, unique-replace,
  unique-before, split_at_wanted,
}
use snframe.Net.Steps.{on_fd}
use snframe.Net.Places.{on_fd-sound, unique-on_fd}

-- A sound list of connections with unique descriptors.
abbrev pub IsConns : List Connection → Type 0
IsConns cs = (all_sound cs ≡ true) × (unique cs ≡ true)

-- One connection is replaced by a sound one with its descriptor.
pub IsConns-replace :
    (before : List Connection) (c d : Connection) (after : List Connection)
    → IsConns (before ++ c ∷ after)
    → d.fd ≡ c.fd
    → (sound c ≡ true → sound d ≡ true)
    → IsConns (before ++ d ∷ after)
IsConns-replace before c d after (h, u) e keeps =
    let (a, b) =
      and_inv (all_sound before) (sound c && all_sound after)
        (sym (all_sound-append before (c ∷ after)) ∙ h) in
    let (x, y) = and_inv (sound c) (all_sound after) b in
    (
      all_sound-append before (d ∷ after) ∙ rw (a, keeps x, y) refl,
      unique-replace before c d after e u,
    )

pub on_fd-IsConns :
    (fd : ℕ) (f : Connection → Connection) (cs : List Connection)
    → ((c : Connection) → (f c).fd ≡ c.fd)
    → ((c : Connection) → sound c ≡ true → sound (f c) ≡ true)
    → IsConns cs
    → IsConns (on_fd fd f cs)
on_fd-IsConns fd f cs same keeps (h, u) = (on_fd-sound fd f cs keeps h, unique-on_fd fd f cs same u)

pub evs-small : (c : Connection) → sound c ≡ true → ltb c.evs 8 ≡ true
evs-small c h = (and_inv (ltb c.evs 8) (waits c) h).0

-- What a sender leaves, where it has found a connection.
abbrev pub sent_net :
    Bool
    → Msg
    → List Connection
    → Connection
    → List Connection
    → List NetEvent
    → List NetEvent
    → NetManager
sent_net ready msg before c after events more =
    if ready && (bit_and c.evs ae_writable == 0)
    then record { conns = before ++ armed c msg ∷ after; events = more }
    else record { conns = before ++ queued c msg ∷ after; events = events }

-- The queue of the connection is well formed behind it, also where it was not before.
pub sent-IsConns :
    (ready : Bool) (msg : Msg) (before : List Connection) (c : Connection) (after : List Connection)
    (events more : List NetEvent)
    → ltb c.evs 8 ≡ true
    → (is_connected c.state && not ready) ≡ false
    → all_sound before ≡ true
    → all_sound after ≡ true
    → unique (before ++ c ∷ after) ≡ true
    → IsConns (sent_net ready msg before c after events more).conns
sent-IsConns ready msg before c after events more small k a b u =
    elim (Bool-cases (ready && (bit_and c.evs ae_writable == 0))) [
      | inl e ↦ rw e (
        all_sound-append before (armed c msg ∷ after) ∙ rw (a, armed-sound c msg small, b) refl,
        unique-replace before c (armed c msg) after refl u,
      )
      | inr e ↦ rw e (
        all_sound-append before (queued c msg ∷ after)
            ∙ rw (a, queued-sound c msg small (ground arith), b) refl,
        unique-replace before c (queued c msg) after refl u,
      )
    ]

-- The parts of a sound list.
pub all_sound-parts :
    (before : List Connection) (c : Connection) (after : List Connection)
    → all_sound (before ++ c ∷ after) ≡ true
    → (all_sound before ≡ true) × (sound c ≡ true) × (all_sound after ≡ true)
all_sound-parts before c after h =
    let (a, b) =
      and_inv (all_sound before) (sound c && all_sound after)
        (sym (all_sound-append before (c ∷ after)) ∙ h) in
    let (x, y) = and_inv (sound c) (all_sound after) b in (a, x, y)

module _ (wanted : Connection → Bool) (ready : ConnState → Bool) (msg : Msg)
    (covers : (s : ConnState) → (is_connected s && not (ready s)) ≡ false) where
  send_to-found :
      (before : List Connection) (c : Connection) (after : List Connection) (events : List NetEvent)
      → any wanted before ≡ false
      → wanted c ≡ true
      → IsConns (before ++ c ∷ after)
      → IsConns
          (send_to wanted ready msg
            (record { conns = before ++ c ∷ after; events = events })).0.conns
  send_to-found before c after events none_before found (h, u) =
      let (a, x, b) = all_sound-parts before c after h in
      subst (λ r. IsConns r.0.conns)
        (sym (
          send_to-first wanted ready msg before c after events none_before
            (unique-before before c after u) found))
        (sent-IsConns (ready c.state) msg before c after events
          (events ++ added c.fd ae_writable ∷ []) (evs-small c x) (covers c.state) a b u)

  pub send_to-IsConns :
      (n : NetManager) → IsConns n.conns → IsConns (send_to wanted ready msg n).0.conns
  send_to-IsConns n v = elim (split_at_wanted wanted n.conns) [
    | inl e ↦ subst (λ r. IsConns r.0.conns) (sym (send_to-none wanted ready msg n e)) v
    | inr f ↦
        subst
          (λ cs.
            IsConns (send_to wanted ready msg (record { conns = cs; events = n.events })).0.conns)
          (sym f.splits)
          (send_to-found f.before f.found f.after n.events f.none_before f.wanted_found
            (subst IsConns f.splits v))
  ]

pub covers_connected : (s : ConnState) → (is_connected s && not (is_connected s)) ≡ false
covers_connected s = ground arith

pub covers_auth : (s : ConnState) → (is_connected s && not (is_connected_or_auth s)) ≡ false
covers_auth state_auth = refl
covers_auth state_connected = refl
covers_auth state_error = refl
covers_auth state_closed = refl
covers_auth state_none = refl
