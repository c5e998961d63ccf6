-- ===== src/Net.antt =====
-- `NetManager` of src/core/NetManager.cpp: the list of connections, the messages that are queued on
-- them, and the events that the event loop is asked for. `events` stands for the calls of
-- addFileEvent and delFileEvent of the event loop, in order. Each function of this file holds the lock
-- of the manager, or is called under it; between two of them other threads may call theirs.
pub mod Send
pub mod Tcp
pub mod Drop
pub mod Waiting
pub mod Steps
pub mod Places
pub mod Sound
pub mod Keeps
pub mod Written
pub mod Invariant
pub mod Race
mod Tests
use Prim.Native.Nat.{bit_and, bit_or}
use snframe.Base.{
  ℕ, ◌+◌, ◌-◌, Bool, true, false, ◌&&◌, ◌||◌, Option, none, some, List, [], ◌∷◌, ◌++◌, not, ◌==◌,
  if◌then◌else◌,
}
use snframe.Packet.{Msg}
use snframe.Protocol.{ProtocolIds}
use snframe.Conn.{push}

-- STATE_AUTH to STATE_NONE.
pub data ConnState : Type 0 where
  state_auth : ConnState
  state_connected : ConnState
  state_error : ConnState
  state_closed : ConnState
  state_none : ConnState

abbrev pub ae_readable : ℕ
ae_readable = 1

abbrev pub ae_writable : ℕ
ae_writable = 2

-- What the manager reads and writes of a connection.
pub record Connection : Type 0 where
  pub fd : ℕ
  pub sid : ℕ
  pub nid : ℕ
  pub state : ConnState
  pub evs : ℕ
  pub out_buffer : List Msg

pub data NetEvent : Type 0 where
  added : ℕ → ℕ → NetEvent
  deleted : ℕ → ℕ → NetEvent

pub record NetManager : Type 0 where
  pub conns : List Connection
  pub events : List NetEvent

abbrev pub is_connected : ConnState → Bool
is_connected state_connected = true
is_connected _ = false

abbrev pub is_connected_or_auth : ConnState → Bool
is_connected_or_auth state_connected = true
is_connected_or_auth state_auth = true
is_connected_or_auth _ = false

unfoldable pub add_connection : Connection → NetManager → NetManager
add_connection c n = record n { conns = n.conns ++ c ∷ [] }

-- The loop of `closeConnection`.
unfoldable pub erase_fd : ℕ → List Connection → List Connection
erase_fd fd [] = []
erase_fd fd (c ∷ cs) = if c.fd == fd then cs else c ∷ erase_fd fd cs

unfoldable pub close_connection : ℕ → NetManager → NetManager
close_connection fd n = record n { conns = erase_fd fd n.conns }

-- The loop of `addFileEvent`: the connections, and the calls of the event loop.
unfoldable pub add_events : ℕ → ℕ → List Connection → List Connection × List NetEvent
add_events fd mask [] = ([], [])
add_events fd mask (c ∷ cs) =
    let (ds, calls) = add_events fd mask cs in
    if c.fd == fd
    then (if bit_and c.evs mask == 0
        then (record c { evs = bit_or c.evs mask } ∷ cs, added fd mask ∷ [])
        else (c ∷ cs, []))
    else (c ∷ ds, calls)

-- What such a loop leaves.
abbrev pub with_calls : NetManager → List Connection × List NetEvent → NetManager
with_calls n (cs, calls) = record { conns = cs; events = n.events ++ calls }

unfoldable pub add_file_event : ℕ → ℕ → NetManager → NetManager
add_file_event fd mask n = with_calls n (add_events fd mask n.conns)

-- The loop of `delFileEvent`. `evs & ~mask` is what is left of `evs` without `evs & mask`.
unfoldable pub del_events : ℕ → ℕ → List Connection → List Connection × List NetEvent
del_events fd mask [] = ([], [])
del_events fd mask (c ∷ cs) =
    let (ds, calls) = del_events fd mask cs in
    let ev = bit_and c.evs mask in
    if c.fd == fd
    then (if ev == 0
        then (c ∷ cs, [])
        else (record c { evs = c.evs - ev } ∷ cs, deleted fd ev ∷ []))
    else (c ∷ ds, calls)

unfoldable pub del_file_event : ℕ → ℕ → NetManager → NetManager
del_file_event fd mask n = with_calls n (del_events fd mask n.conns)

-- The loop that the four senders have in common: the message is queued on the first connection that
-- is wanted, which is the answer.
unfoldable pub push_first :
    (Connection → Bool) → Msg → List Connection → Option Connection × List Connection
push_first wanted msg [] = (none, [])
push_first wanted msg (c ∷ cs) =
    let (found, ds) = push_first wanted msg cs in
    if wanted c
    then (some c, record c { out_buffer = push c.out_buffer msg } ∷ cs)
    else (found, c ∷ ds)

-- What follows on the connection that was found. `true` stands for the result 0, `false` for -1.
unfoldable pub notify :
    (ConnState → Bool) → NetManager → Option Connection × List Connection → NetManager × Bool
notify ready n (none, cs) = (record n { conns = cs }, false)
notify ready n (some c, cs) =
    let m = record n { conns = cs } in
    (if ready c.state then add_file_event c.fd ae_writable m else m, true)

unfoldable pub send_to :
    (Connection → Bool) → (ConnState → Bool) → Msg → NetManager → NetManager × Bool
send_to wanted ready msg n = notify ready n (push_first wanted msg n.conns)

unfoldable pub send_sock : Msg → ℕ → NetManager → NetManager × Bool
send_sock msg fd = send_to (λ c. c.fd == fd) is_connected msg

unfoldable pub send_node : Msg → ℕ → NetManager → NetManager × Bool
send_node msg nid = send_to (λ c. c.nid == nid) is_connected_or_auth msg

unfoldable pub send_db : ProtocolIds → Msg → NetManager → NetManager × Bool
send_db ids msg = send_to (λ c. c.sid == ids.sid_db_proxy) is_connected_or_auth msg

unfoldable pub send_state : ProtocolIds → Msg → NetManager → NetManager × Bool
send_state ids msg = send_to (λ c. c.sid == ids.sid_user_state) is_connected_or_auth msg
