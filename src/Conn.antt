-- ===== src/Conn.antt =====
-- `Connection` of src/core/Connection.cpp: the two loops that move bytes between a connection and the
-- kernel. The answers of the kernel are a list, one for each call of send or recv; when it is at an
-- end the call would block. IMQueue of src/base/IMQueue.h, under its lock, is a list.
pub mod Pieces
pub mod Write
pub mod Read
pub mod Cache
pub mod Reconnects
mod Tests
use snframe.Base.{
  ℕ, ◌+◌, ◌-◌, min, Bool, true, false, List, [], ◌∷◌, ◌++◌, length, take, not, ltb, ◌==◌,
  if◌then◌else◌, Outcome, ret, ◌>>=◌,
}
use snframe.Memory.{slice, poke}
use snframe.Packet.{Msg, bytes}
use snframe.Frame.{Frame, recv_buf_len}

pub data IoResult : Type 0 where
  io_error : IoResult
  io_closed : IoResult
  io_finish : IoResult
  io_again : IoResult

-- `IMQueue::push` and `IMQueue::pop`.
unfoldable pub push {ℓ} : {A : Type ℓ} → List A → A → List A
push q msg = q ++ msg ∷ []

unfoldable pub pop {ℓ} : {A : Type ℓ} → List A → A → List A × A × Bool
pop [] msg = ([], msg, false)
pop (m ∷ q) msg = (q, m, true)

-- What a connection holds for sending, the two counters of the process, and all that the kernel has
-- taken from it so far.
pub record Sending : Type 0 where
  pub out_buffer : List Msg
  pub out_pkt : Msg
  pub finish : Bool
  pub send_len : ℕ
  pub send_success_pkts : ℕ
  pub send_fail_pkts : ℕ
  pub wire : List ℕ

unfoldable pub next_pkt : Sending → Sending × Bool
unfolding pop
next_pkt s =
    if not s.finish
    then (s, true)
    else (let (q, m, popped) = pop s.out_buffer s.out_pkt in
        if popped
        then (record s { out_buffer = q; out_pkt = m; finish = false }, true)
        else (s, false))

-- The answer of send: an error, that it would block, or that it takes so many bytes, or all if there
-- are not so many.
pub data Send : Type 0 where
  send_failed : Send
  send_again : Send
  sends : ℕ → Send

-- The kernel has taken `n` bytes of `out_pkt`.
unfoldable pub advance : Sending → ℕ → Outcome Sending
advance s n = slice (bytes s.out_pkt.m_data) s.send_len n >>= λ out.
    let t = record s { send_len = s.send_len + n; wire = s.wire ++ out } in
    if t.send_len == s.out_pkt.m_len
    then ret (record t { send_len = 0; finish = true; send_success_pkts = s.send_success_pkts + 1 })
    else ret t

unfoldable pub write : List Send → Sending → Outcome (Sending × IoResult)
write [] s = let (t, more) = next_pkt s in ret (t, if more then io_again else io_finish)
write (send_failed ∷ answers) s =
    let (t, more) = next_pkt s in
    ret (
      if more
      then (record t { send_fail_pkts = t.send_fail_pkts + 1 }, io_error)
      else (t, io_finish))
write (send_again ∷ answers) s =
    let (t, more) = next_pkt s in ret (t, if more then io_again else io_finish)
write (sends k ∷ answers) s =
    let (t, more) = next_pkt s in
    let n = min k (t.out_pkt.m_len - t.send_len) in
    let rest = advance t n >>= write answers in
    if more then (if n == 0 then ret (t, io_closed) else rest) else ret (t, io_finish)

-- The answer of recv: an error, that it was interrupted, that it would block, or these bytes; no
-- bytes mean that the other side has closed.
pub data Recv : Type 0 where
  recv_failed : Recv
  recv_interrupted : Recv
  recv_again : Recv
  receives : List ℕ → Recv

-- `while (recv_len)`. The kernel hands over at most `recv_len` bytes.
unfoldable pub read : List Recv → Frame → Outcome (Frame × IoResult)
read [] f = ret (f, if f.buf_len == recv_buf_len then io_finish else io_again)
read (recv_failed ∷ answers) f = ret (f, if f.buf_len == recv_buf_len then io_finish else io_error)
read (recv_interrupted ∷ answers) f =
    let rest = read answers f in if f.buf_len == recv_buf_len then ret (f, io_finish) else rest
read (recv_again ∷ answers) f = ret (f, if f.buf_len == recv_buf_len then io_finish else io_again)
read (receives xs ∷ answers) f =
    let got = take (recv_buf_len - f.buf_len) xs in
    let rest = poke f.buf f.buf_len got >>= λ block.
    read answers (record f { buf = block; buf_len = f.buf_len + length got }) in
    if f.buf_len == recv_buf_len
    then ret (f, io_finish)
    else if length got == 0
    then ret (f, io_closed)
    else rest
