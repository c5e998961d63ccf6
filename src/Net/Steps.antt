-- ===== src/Net/Steps.antt =====
-- What the program does with its connections, as steps: the functions of src/core/NetManager.cpp,
-- src/core/NetServer.cpp and `NodeMgr::AuthenticationReq` of src/core/NodeMgr.cpp, in any order.
use snframe.Base.{
  ℕ, ◌≡◌, Bool, true, false, ◌&&◌, Option, none, some, List, [], ◌∷◌, ◌++◌, drop, ◌==◌,
  if◌then◌else◌,
}
use snframe.Packet.{Msg}
use snframe.Protocol.{ProtocolIds}
use snframe.Conn.{IoResult}
use snframe.Net.{
  ConnState, Connection, NetManager, state_auth, state_connected, state_none, is_connected,
  ae_readable, add_connection, close_connection, add_file_event, send_sock, send_node, send_db,
  send_state,
}
use snframe.Net.Send.{any, has_fd}
use snframe.Net.Tcp.{set_conn_state, tcp_write, tcp_read}
use snframe.Net.Waiting.{is_nil}

-- A function on the connection with this descriptor.
unfoldable pub on_fd : ℕ → (Connection → Connection) → List Connection → List Connection
on_fd fd f [] = []
on_fd fd f (c ∷ cs) = if c.fd == fd then f c ∷ cs else c ∷ on_fd fd f cs

unfoldable pub on_conn : ℕ → (Connection → Connection) → NetManager → NetManager
on_conn fd f n = record n { conns = on_fd fd f n.conns }

-- `Connection::Connection`, with its descriptor.
unfoldable pub new_connection : ℕ → Connection
new_connection fd = record {
  fd = fd;
  sid = 0;
  nid = 0;
  state = state_none;
  evs = 0;
  out_buffer = [];
}

-- `NetServer::connect`; the answer of createClient is a descriptor, if it is above 0.
unfoldable pub connect : Option ℕ → NetManager → NetManager × Option ℕ
connect none n = (n, none)
connect (some fd) n =
    (add_file_event fd ae_readable (add_connection (new_connection fd) n), some fd)

-- `NetServer::accept`: the answer of accept, whether the socket can be made non-blocking, and whether
-- the connection is allocated.
unfoldable pub accept : Option ℕ → Bool → Bool → NetManager → NetManager
accept none nonblocking allocated n = n
accept (some fd) nonblocking allocated n =
    if nonblocking && allocated
    then add_file_event fd ae_readable
        (add_connection (record (new_connection fd) { state = state_auth }) n)
    else n

-- `conn->setNodeInfo`.
unfoldable pub set_node_info : ℕ → ℕ → ℕ → NetManager → NetManager
set_node_info fd sid nid = on_conn fd (λ c. record c { sid = sid; nid = nid })

-- What `NodeMgr::AuthenticationReq` does with the connection that the request came on; `answer` is the
-- message that it makes, unless malloc fails.
unfoldable pub answer_req : ℕ → ℕ → ℕ → Option Msg → NetManager → NetManager
answer_req fd sid nid answer n =
    let m = set_conn_state state_connected fd (set_node_info fd sid nid n) in
    elim answer [ none ↦ m | some msg ↦ (send_sock msg fd m).0 ]

-- A call of `TcpServer::write` between `conn->empty()` and what follows: the result of the loop, what
-- `empty` has answered, and the connection.
pub record Writing : Type 0 where
  pub result : IoResult
  pub empty : Bool
  pub client : Bool
  pub fd : ℕ

-- The connections, and the call of `TcpServer::write` that the loop's thread is in, if any.
pub record Process : Type 0 where
  pub net : NetManager
  pub writing : Option Writing

abbrev pub idle : NetManager → Process
idle n = record { net = n; writing = none }

-- The first part of `TcpServer::write`: `Connection::write` takes the first `k` messages from the
-- queue, and `conn->empty()` is asked; `finish` is whether no packet is half sent. A message that is
-- sent before `empty` is asked is behind these `k`, as one that is sent before this step. No lock is
-- held from there to the second part.
unfoldable pub wrote : IoResult → ℕ → Bool → Bool → ℕ → List Msg → NetManager → Process
wrote r k finish client fd queue n = record {
  net = on_conn fd (λ c. record c { out_buffer = drop k c.out_buffer }) n;
  writing =
      some
        (record { result = r; empty = finish && is_nil (drop k queue); client = client; fd = fd });
}

-- The second part.
unfoldable pub settle : Writing → NetManager → NetManager
settle w n = tcp_write w.result w.empty w.client w.fd n

-- A message is sent. Each sender holds the lock of the manager.
pub data Send (ids : ProtocolIds) : NetManager → NetManager → Type 0 where
  to_sock : (n : NetManager) (msg : Msg) (fd : ℕ) → Send ids n (send_sock msg fd n).0
  to_node : (n : NetManager) (msg : Msg) (nid : ℕ) → Send ids n (send_node msg nid n).0
  to_db : (n : NetManager) (msg : Msg) → Send ids n (send_db ids msg n).0
  to_state : (n : NetManager) (msg : Msg) → Send ids n (send_state ids msg n).0

-- What the loop's thread does outside `TcpServer::write`, or the setting of a state other than
-- STATE_CONNECTED or of the ids.
pub data Act (ids : ProtocolIds) : NetManager → NetManager → Type 0 where
  connects :
      (n : NetManager) (fd : ℕ)
      → any (has_fd fd) n.conns ≡ false
      → Act ids n (connect (some fd) n).0
  accepts :
      (n : NetManager) (fd : ℕ)
      → any (has_fd fd) n.conns ≡ false
      → Act ids n (accept (some fd) true true n)
  closes : (n : NetManager) (fd : ℕ) → Act ids n (close_connection fd n)
  sends : {m n : NetManager} → Send ids m n → Act ids m n
  authenticates :
      (n : NetManager) (fd sid nid : ℕ) (msg : Msg) → Act ids n (answer_req fd sid nid (some msg) n)
  marks :
      (n : NetManager) (s : ConnState) (fd : ℕ)
      → is_connected s ≡ false
      → Act ids n (set_conn_state s fd n)
  enrolls : (n : NetManager) (fd sid nid : ℕ) → Act ids n (set_node_info fd sid nid n)
  reads :
      (n : NetManager) (r : IoResult) (client : Bool) (fd : ℕ)
      → Act ids n (tcp_read r client fd n).0

-- A step of the process. Where it has `threads` of the pool, these send while the loop's thread is
-- in `TcpServer::write`; where it has none, handlers and timers run on the loop's thread.
pub data Step (ids : ProtocolIds) (threads : Bool) : Process → Process → Type 0 where
  acts : {m n : NetManager} → Act ids m n → Step ids threads (idle m) (idle n)
  writes :
      (n : NetManager) (r : IoResult) (k : ℕ) (finish client : Bool) (before : List Connection)
      (c : Connection) (after : List Connection)
      → n.conns ≡ before ++ c ∷ after
      → Step ids threads (idle n) (wrote r k finish client c.fd c.out_buffer n)
  settles :
      (w : Writing) (n : NetManager)
      → Step ids threads (record { net = n; writing = some w }) (idle (settle w n))
  interferes :
      {m n : NetManager} (w : Writing)
      → threads ≡ true
      → Send ids m n
      → Step ids threads
          (record { net = m; writing = some w })
          (record { net = n; writing = some w })

pub data Reach (ids : ProtocolIds) (threads : Bool) (p : Process) : Process → Type 0 where
  here : Reach ids threads p p
  next : {q r : Process} → Reach ids threads p q → Step ids threads q r → Reach ids threads p r
