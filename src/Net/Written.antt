-- ===== src/Net/Written.antt =====
-- What `TcpServer::write` and `read` of src/core/TcpServer.cpp leave of a well-formed list of connections.
use snframe.Base.{
  ℕ, zero, suc, ◌≡◌, refl, sym, ap, ◌∙◌, Bool, true, false, not, ◌&&◌, List, [], ◌∷◌, ◌++◌, drop,
  if◌then◌else◌, arith,
}
use mathlib.Core.Path.{subst}
use snframe.Packet.{Msg}
use snframe.Conn.{IoResult, io_error, io_closed, io_finish, io_again}
use snframe.Net.{
  ConnState, Connection, NetManager, state_error, state_closed, is_connected, ae_writable,
  del_events, del_file_event,
}
use snframe.Net.Drop.{unarmed, unarmed-fd}
use snframe.Net.Tcp.{tcp_write, tcp_read}
use snframe.Net.Waiting.{is_nil, sound, unarmed-sound, unique-before}
use snframe.Net.Steps.{on_fd, on_conn}
use snframe.Net.Places.{del_events-on_fd, on_fd-on_fd, on_fd-first}
use snframe.Net.Sound.{IsConns, IsConns-replace, on_fd-IsConns, evs-small}
use snframe.Net.Keeps.{drop-IsConns, or_true}

-- The first `k` messages of a connection are sent.
abbrev pub rest_of : ℕ → Connection → Connection
rest_of k c = record c { out_buffer = drop k c.out_buffer }

nil-drop : (k : ℕ) (q : List Msg) → is_nil q ≡ true → is_nil (drop k q) ≡ true
nil-drop zero q h = h
nil-drop (suc k) [] h = refl
nil-drop (suc k) (m ∷ q) h = cc

rest_of-sound : (k : ℕ) (c : Connection) → sound c ≡ true → sound (rest_of k c) ≡ true
rest_of-sound k c h = ground (arith, nil-drop k c.out_buffer)

pub state-sound :
    (s : ConnState) (c : Connection)
    → is_connected s ≡ false
    → sound c ≡ true
    → sound (record c { state = s }) ≡ true
state-sound s c e h = ground arith

-- The writable event is taken away where nothing is left.
module _ (k : ℕ) (finish : Bool) (before : List Connection) (c : Connection)
    (after : List Connection) (n : NetManager) (e : n.conns ≡ before ++ c ∷ after)
    (v : IsConns n.conns) where
  pub rest-IsConns : IsConns (on_fd c.fd (rest_of k) n.conns)
  rest-IsConns = on_fd-IsConns c.fd (rest_of k) n.conns (λ d. refl) (rest_of-sound k) v

  unwatched-IsConns :
      is_nil (drop k c.out_buffer) ≡ true
      → IsConns (del_events c.fd ae_writable (on_fd c.fd (rest_of k) n.conns)).0
  unwatched-IsConns nothing =
      let w = subst IsConns e v in
      subst IsConns
        (sym (
          del_events-on_fd c.fd ae_writable _
          ∙ on_fd-on_fd c.fd (unarmed ae_writable) (rest_of k) n.conns (λ d. refl)
          ∙ ap (on_fd c.fd (λ d. unarmed ae_writable (rest_of k d))) e
          ∙ on_fd-first (λ d. unarmed ae_writable (rest_of k d)) before c after
              (unique-before before c after w.1)))
        (IsConns-replace before c (unarmed ae_writable (rest_of k c)) after w
          (unarmed-fd ae_writable (rest_of k c))
          (λ h.
            (unarmed-sound (rest_of k c) (evs-small c h)
              (rw nothing (or_true (not (is_connected c.state))))).0))

  watched-IsConns :
      (left : Bool)
      → left ≡ (finish && is_nil (drop k c.out_buffer))
      → IsConns
          (if left
            then del_file_event c.fd ae_writable (on_conn c.fd (rest_of k) n)
            else on_conn c.fd (rest_of k) n).conns
  unfolding del_file_event on_conn
  watched-IsConns true h = unwatched-IsConns (ground arith)
  watched-IsConns false h = rest-IsConns

  pub written-IsConns :
      (r : IoResult) (client : Bool)
      → IsConns
          (tcp_write r
            (finish && is_nil (drop k c.out_buffer))
            client
            c.fd
            (on_conn c.fd (rest_of k) n)).conns
  unfolding tcp_write
  written-IsConns io_error client =
      drop-IsConns state_error client c.fd (on_conn c.fd (rest_of k) n) refl
        (unfold on_conn in rest-IsConns)
  written-IsConns io_closed client =
      drop-IsConns state_closed client c.fd (on_conn c.fd (rest_of k) n) refl
        (unfold on_conn in rest-IsConns)
  written-IsConns io_finish client = watched-IsConns _ refl
  written-IsConns io_again client = watched-IsConns _ refl

pub read-IsConns :
    (r : IoResult) (client : Bool) (fd : ℕ) (n : NetManager)
    → IsConns n.conns
    → IsConns (tcp_read r client fd n).0.conns
unfolding tcp_read
read-IsConns io_error client fd n v = drop-IsConns state_error client fd n refl v
read-IsConns io_closed client fd n v = drop-IsConns state_closed client fd n refl v
read-IsConns io_finish client fd n v = v
read-IsConns io_again client fd n v = v
