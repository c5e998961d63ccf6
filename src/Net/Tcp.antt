-- ===== src/Net/Tcp.antt =====
-- `TcpServer::read` and `TcpServer::write` of src/core/TcpServer.cpp: what follows on the result of
-- the loops of src/core/Connection.cpp. `client` is whether the flag is conn_client.
use snframe.Base.{Bool, true, false, ℕ, List, [], ◌∷◌, ◌==◌, if◌then◌else◌}
use snframe.Conn.{IoResult, io_error, io_closed, io_finish, io_again}
use snframe.Net.{
  Connection, ConnState, state_error, state_closed, NetManager, ae_writable, del_file_event,
  close_connection,
}

-- `conn->setState`, on the connection with this descriptor.
unfoldable pub states : ConnState → ℕ → List Connection → List Connection
states s fd [] = []
states s fd (c ∷ cs) = if c.fd == fd then record c { state = s } ∷ cs else c ∷ states s fd cs

unfoldable pub set_conn_state : ConnState → ℕ → NetManager → NetManager
set_conn_state s fd n = record n { conns = states s fd n.conns }

-- AE_READABLE | AE_WRITABLE.
abbrev pub ae_both : ℕ
ae_both = 3

-- The end of both functions: no event is waited for, and a connection that was accepted is closed.
unfoldable pub drop_connection : ConnState → Bool → ℕ → NetManager → NetManager
drop_connection s client fd n =
    let m = del_file_event fd ae_both (set_conn_state s fd n) in
    if client then m else close_connection fd m

-- `empty` is the answer of `conn->empty()` behind the loop.
unfoldable pub tcp_write : IoResult → Bool → Bool → ℕ → NetManager → NetManager
tcp_write io_error empty client fd n = drop_connection state_error client fd n
tcp_write io_closed empty client fd n = drop_connection state_closed client fd n
tcp_write io_finish empty client fd n = if empty then del_file_event fd ae_writable n else n
tcp_write io_again empty client fd n = if empty then del_file_event fd ae_writable n else n

-- The manager, and whether `parse` is called.
unfoldable pub tcp_read : IoResult → Bool → ℕ → NetManager → NetManager × Bool
tcp_read io_error client fd n = (drop_connection state_error client fd n, false)
tcp_read io_closed client fd n = (drop_connection state_closed client fd n, false)
tcp_read io_finish client fd n = (n, true)
tcp_read io_again client fd n = (n, true)
