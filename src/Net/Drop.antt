-- ===== src/Net/Drop.antt =====
-- What is left of a connection that is dropped by src/core/TcpServer.cpp.
use Prim.Native.Nat.{bit_and}
use snframe.Base.{
  ℕ, ◌-◌, ◌≡◌, refl, ap, ◌∙◌, Bool, Bool-cases, inl, inr, false, List, [], ◌∷◌, ◌++◌, ◌==◌, ==_iff,
  if◌then◌else◌,
}
use snframe.Conn.{io_error, io_closed}
use snframe.Net.{
  Connection, ConnState, state_error, state_closed, NetManager, del_events, del_file_event,
  erase_fd, close_connection,
}
use snframe.Net.Send.{any, has_fd, or_false}
use snframe.Net.Tcp.{states, set_conn_state, drop_connection, ae_both, tcp_write, tcp_read}

states-first :
    (s : ConnState) (before : List Connection) (c : Connection) (after : List Connection)
    → any (has_fd c.fd) before ≡ false
    → states s c.fd (before ++ c ∷ after) ≡ before ++ record c { state = s } ∷ after
unfolding states
states-first s [] c after e = rw ((==_iff c.fd c.fd).1 refl) refl
states-first s (b ∷ bs) c after e =
    let (here, later) = or_false (has_fd c.fd b) (any (has_fd c.fd) bs) e in
    rw here (ap (◌∷◌ b) (states-first s bs c after later))

-- A connection without the events of `mask`.
abbrev pub unarmed : ℕ → Connection → Connection
unarmed mask c =
    if bit_and c.evs mask == 0 then c else record c { evs = c.evs - bit_and c.evs mask }

pub del_events-first :
    (mask : ℕ) (before : List Connection) (c : Connection) (after : List Connection)
    → any (has_fd c.fd) before ≡ false
    → (del_events c.fd mask (before ++ c ∷ after)).0 ≡ before ++ unarmed mask c ∷ after
unfolding del_events
del_events-first mask [] c after e =
    rw ((==_iff c.fd c.fd).1 refl)
      (elim (Bool-cases (bit_and c.evs mask == 0)) [ inl z ↦ rw z refl | inr z ↦ rw z refl ])
del_events-first mask (b ∷ bs) c after e =
    let (here, later) = or_false (has_fd c.fd b) (any (has_fd c.fd) bs) e in
    rw here (ap (◌∷◌ b) (del_events-first mask bs c after later))

erase_fd-first :
    (fd : ℕ) (before : List Connection) (c : Connection) (after : List Connection)
    → any (has_fd fd) before ≡ false
    → c.fd ≡ fd
    → erase_fd fd (before ++ c ∷ after) ≡ before ++ after
unfolding erase_fd
erase_fd-first fd [] c after e f = rw ((==_iff c.fd fd).1 f) refl
erase_fd-first fd (b ∷ bs) c after e f =
    let (here, later) = or_false (has_fd fd b) (any (has_fd fd) bs) e in
    rw here (ap (◌∷◌ b) (erase_fd-first fd bs c after later f))

pub unarmed-fd : (mask : ℕ) (c : Connection) → (unarmed mask c).fd ≡ c.fd
unarmed-fd mask c = elim (Bool-cases (bit_and c.evs mask == 0)) [
  | inl z ↦ rw z refl
  | inr z ↦ rw z refl
]

drop-first :
    (s : ConnState) (client : Bool) (before : List Connection) (c : Connection)
    (after : List Connection) (n : NetManager)
    → n.conns ≡ before ++ c ∷ after
    → any (has_fd c.fd) before ≡ false
    → (drop_connection s client c.fd n).conns ≡ (
        if client
        then before ++ unarmed ae_both (record c { state = s }) ∷ after
        else before ++ after)
unfolding drop_connection set_conn_state del_file_event close_connection
drop-first s client before c after n e f = elim (Bool-cases client) [
  | inl k ↦ rw k events
  | inr k ↦ rw k (
      ap (erase_fd c.fd) events
      ∙ erase_fd-first c.fd before (unarmed ae_both (record c { state = s })) after f
          (unarmed-fd ae_both (record c { state = s })))
]
  where
    events :
        (del_events c.fd ae_both (states s c.fd n.conns)).0
        ≡ before ++ unarmed ae_both (record c { state = s }) ∷ after
    events =
        ap (λ cs. (del_events c.fd ae_both (states s c.fd cs)).0) e
        ∙ ap (λ cs. (del_events c.fd ae_both cs).0) (states-first s before c after f)
        ∙ del_events-first ae_both before (record c { state = s }) after f

-- After an error of send or recv, or where the other side has closed: a connection that was accepted
-- is gone from the list; one that was made stays, with the state of an error or of closing, and is
-- waited for neither to be read nor to be written. The others are as they were, and nothing is parsed.
pub drop-io :
    (empty client : Bool) (before : List Connection) (c : Connection) (after : List Connection)
    (n : NetManager)
    → n.conns ≡ before ++ c ∷ after
    → any (has_fd c.fd) before ≡ false
    → let left : ConnState → List Connection = λ s.
      if client
      then before ++ unarmed ae_both (record c { state = s }) ∷ after
      else before ++ after in
      ((tcp_write io_error empty client c.fd n).conns ≡ left state_error)
      × ((tcp_write io_closed empty client c.fd n).conns ≡ left state_closed)
      × ((tcp_read io_error client c.fd n).0.conns ≡ left state_error)
      × ((tcp_read io_closed client c.fd n).0.conns ≡ left state_closed)
      × ((tcp_read io_error client c.fd n).1 ≡ false)
      × ((tcp_read io_closed client c.fd n).1 ≡ false)
unfolding tcp_write tcp_read
drop-io empty client before c after n e f = (
  drop-first state_error client before c after n e f,
  drop-first state_closed client before c after n e f,
  drop-first state_error client before c after n e f,
  drop-first state_closed client before c after n e f,
  refl,
  refl,
)
