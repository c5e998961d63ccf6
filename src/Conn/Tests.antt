-- ===== src/Conn/Tests.antt =====
-- Runs of the two loops of src/core/Connection.cpp.
use snframe.Base.{
  ℕ, ◌+◌, ◌≡◌, ◌≢◌, ◌⊎◌, refl, inl, true, false, none, some, List, [], ◌∷◌, ◌++◌, take, length, leb,
  if◌then◌else◌, ret, arith,
}
use snframe.Memory.{slice}
use snframe.Packet.{Msg, null_msg}
use snframe.Frame.{Frame, blank_buf, length-blank_buf}
use snframe.Frame.Delivery.{IsFrame, kept}
use snframe.Conn.Cache.{Store, Holder, destruct}
use snframe.Conn.Reconnects.{reconnects, reconnects-destruct}
use snframe.Conn.{
  Sending, Send, send_again, sends, Recv, recv_interrupted, recv_again, receives, IoResult,
  io_again, io_finish, next_pkt, pop, advance, write, read,
}
use snframe.Conn.Pieces.{IsSending, Follows, todo, Sendable, all_nil, all_cons}
use snframe.Conn.Write.{write-Follows}
use snframe.Conn.Read.{room, read-IsFrame}

abbrev three : Msg
three = record { m_data = some (1 ∷ 2 ∷ 3 ∷ []); m_len = 3; m_alloc = 3 }

three-Sendable : Sendable three
three-Sendable = record { fits = omega arith; some_bytes = omega arith }

-- Two packets wait.
abbrev two_packets : Sending
two_packets = record {
  out_buffer = three ∷ three ∷ [];
  out_pkt = null_msg;
  finish = true;
  send_len = 0;
  send_success_pkts = 0;
  send_fail_pkts = 0;
  wire = [];
}

two_packets-IsSending : IsSending two_packets
two_packets-IsSending = record {
  queue = all_cons three (three ∷ []) three-Sendable (all_cons three [] three-Sendable all_nil);
  current = inl refl;
  place = refl;
}

-- The kernel takes two bytes, then one, then two, and would then block.
abbrev in_pieces : List Send
in_pieces = sends 2 ∷ sends 9 ∷ sends 2 ∷ send_again ∷ []

in_pieces-sent :
    write in_pieces two_packets
    ≡ ret (
      record {
        out_buffer = [];
        out_pkt = three;
        finish = false;
        send_len = 2;
        send_success_pkts = 1;
        send_fail_pkts = 0;
        wire = 1 ∷ 2 ∷ 3 ∷ 1 ∷ 2 ∷ [];
      },
      io_again,
    )
unfolding write next_pkt pop advance slice
in_pieces-sent = refl

write-Follows_example :
    (t : Sending) × (r : IoResult) × (write in_pieces two_packets ≡ ret (t, r))
    × Follows two_packets t
    × ((r ≢ io_finish) ⊎ (todo t ≡ []))
write-Follows_example = write-Follows in_pieces two_packets two_packets-IsSending

abbrev blank : Frame
blank = record { buf = blank_buf; buf_len = 0; pkt = null_msg; less_pkt_len = 0 }

blank-IsFrame : IsFrame blank
blank-IsFrame = record { full = length-blank_buf; inside = omega arith; part = inl refl }

abbrev arrivals : List Recv
arrivals = receives (1 ∷ 2 ∷ []) ∷ recv_interrupted ∷ receives (3 ∷ []) ∷ recv_again ∷ []

abbrev in_order : List ℕ
in_order = 1 ∷ 2 ∷ 3 ∷ []

read-IsFrame_example :
    (g : Frame) × (read arrivals blank
      ≡ ret (g, if leb (room blank) 3 then io_finish else io_again))
    × IsFrame g
    × (kept g ≡ kept blank ++ take (room blank) in_order)
    × (g.buf_len ≡ 0 + length (take (room blank) in_order))
read-IsFrame_example = read-IsFrame arrivals blank blank-IsFrame

-- A message waits on a broken connection; it is made again twice, and each time a message came in.
abbrev note : ℕ → Msg
note n = record { m_data = some (n ∷ []); m_len = 1; m_alloc = 1 }

abbrev broken : Holder
broken = record { out_buffer = 1; cache = true; finish = false }

abbrev queues : Store
queues = none ∷ some (note 5 ∷ []) ∷ []

reconnects-destruct_example :
    (last : Holder) × (s : Store) × (reconnects ((note 6 ∷ []) ∷ (note 7 ∷ []) ∷ []) broken queues
      ≡ ret (s, last))
    × (s ≡ none ∷ some (note 5 ∷ note 6 ∷ note 7 ∷ []) ∷ none ∷ none ∷ [])
    × (last ≡ record { out_buffer = 1; cache = true; finish = true })
    × (destruct last s ≡ ret (none ∷ none ∷ none ∷ none ∷ []))
reconnects-destruct_example =
    reconnects-destruct (note 6 ∷ []) ((note 7 ∷ []) ∷ []) broken queues (note 5 ∷ []) refl
