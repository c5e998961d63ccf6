-- ===== src/Packet/Header.antt =====
-- src/base/PbBuf.cpp: the readers of header fields. On NULL each answers 0.
use snframe.Base.{ℕ, ◌+◌, ◌-◌, ◌%◌, ◌^◌, Option, none, some, Outcome, ret, ◌>>=◌}
use snframe.Memory.{peek8, peek16, peek32, htons, htonl}
use snframe.Packet.{Msg, head_len, field}

-- An offset into the block, or NULL.
unfoldable pub get_data : Msg → Option ℕ
get_data msg = elim msg.m_data [ none ↦ none | some _ ↦ some head_len ]

-- The difference is an int, returned as a uint32_t.
unfoldable pub data_len : Msg → ℕ
data_len msg = (msg.m_len + 2 ^ 32 - head_len) % 2 ^ 32

unfoldable pub get_company_id : Msg → Outcome ℕ
get_company_id msg = field msg λ xs. peek32 xs 20 >>= λ w. ret (htonl w)

-- A word of four bytes is read, and ntohs takes the lower half.
unfoldable pub get_packge_number : Msg → Outcome ℕ
get_packge_number msg = field msg λ xs. peek32 xs 14 >>= λ w. ret (htons (w % 2 ^ 16))

unfoldable pub get_data_len : Msg → Outcome ℕ
get_data_len msg = field msg λ xs. peek16 xs 24 >>= λ w. ret (htons w)

unfoldable pub get_protocl : Msg → Outcome ℕ
get_protocl msg = field msg λ xs. peek32 xs 16 >>= λ w. ret (htonl w)

unfoldable pub get_sid : Msg → Outcome ℕ
get_sid msg = field msg λ xs. peek16 xs 16 >>= λ w. ret (htons w)

unfoldable pub get_cmd : Msg → Outcome ℕ
get_cmd msg = field msg λ xs. peek16 xs 18 >>= λ w. ret (htons w)

unfoldable pub get_msg_id : Msg → Outcome ℕ
get_msg_id msg = field msg λ xs. peek16 xs 14 >>= λ w. ret (htons w)

unfoldable pub get_version : Msg → Outcome ℕ
get_version msg = field msg λ xs. peek8 xs 13

unfoldable pub get_srv_id : Msg → Outcome ℕ
get_srv_id msg = field msg λ xs. peek32 xs 2 >>= λ w. ret (htonl w)

unfoldable pub get_socket_id : Msg → Outcome ℕ
get_socket_id msg = field msg λ xs. peek32 xs 6 >>= λ w. ret (htonl w)
