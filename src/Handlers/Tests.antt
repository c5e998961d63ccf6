-- ===== src/Handlers/Tests.antt =====
-- A run of src/core/PbProtocolHandler.cpp.
use snframe.Base.{
  ℕ, ◌≡◌, ◌≤◌, refl, true, false, ◌&&◌, some, List, [], ◌∷◌, length, ◌==◌, if◌then◌else◌, ret,
  arith,
}
use snframe.Decimal.{atoi, skip_spaces, read_signed, read_digits}
use snframe.Pool.{ThreadPool, choose, next_index, place, start, init, create_threads, create_thread}
use snframe.Pool.Steps.{of_thread, Running, Reach, here, next, chooses, places, running}
use snframe.Memory.{Block}
use snframe.Packet.{Msg}
use snframe.Packet.Fields.{header}
use snframe.Packet.Readers.{all_bytes-IsBytes}
use snframe.Handlers.{Handlers, Recver, regist, handler, recver_start}
use snframe.Handlers.Idle.{recver_start-idle}
use snframe.Handlers.Registry.{handler-regist}

-- A packet for service 1, command 2.
abbrev hello : Block
hello =
    0x7e ∷ 0xaa ∷ 0 ∷ 0 ∷ 0 ∷ 0 ∷ 0 ∷ 0 ∷ 0 ∷ 0 ∷ 0 ∷ 102 ∷ 35 ∷ 1 ∷ 0 ∷ 9 ∷ 0 ∷ 1 ∷ 0 ∷ 2 ∷ 0 ∷ 0
    ∷ 0 ∷ 0 ∷ 0 ∷ 1 ∷ 4 ∷ 5 ∷ []

abbrev hello_msg : Msg
hello_msg = record { m_data = some hello; m_len = 28; m_alloc = 28 }

abbrev others : Handlers ℕ
others = (65539, some 8) ∷ []

handler-regist_example : handler ((regist true 1 2 (some 7) others).0) hello_msg ≡ (
    if ((header hello).service_id == 1) && ((header hello).cmd_id == 2)
    then ret (some 7)
    else handler others hello_msg)
handler-regist_example =
    handler-regist 1 2 (some 7) others hello_msg hello (omega arith) (omega arith) refl
      (omega arith) (all_bytes-IsBytes hello refl)

-- ProcessThread is `12`. A job is added, and put into the queue of thread 1.
abbrev twelve : List ℕ
twelve = 49 ∷ 50 ∷ []

abbrev stopped : Recver ℕ
stopped = record { num = 0; pool = init 0 0 0 false; recv_chat_pkts = 0; called = [] }

abbrev started : ThreadPool Msg
started = (recver_start (some twelve) stopped).pool

abbrev chosen : Running Msg
chosen = record (running started) {
  pool = record started { index = 1 };
  placing = (1, hello_msg) ∷ [];
  added = (1, hello_msg) ∷ [];
}

abbrev placed : Running Msg
placed = record chosen {
  pool = place 1 hello_msg chosen.pool;
  placing = [];
  placed = (1, hello_msg) ∷ [];
}

one_job : Reach false (running started) placed
unfolding running choose next_index recver_start start init create_threads create_thread atoi
    skip_spaces read_signed read_digits
one_job =
    next (next here (chooses (running started) (record started { index = 1 }) 1 hello_msg refl))
      (places chosen 1 hello_msg [] [] refl)

twelve_one : 1 ≤ atoi twelve
unfolding atoi skip_spaces read_signed read_digits
twelve_one = omega arith

recver_start-idle_example :
    (length started.threads ≡ 12)
    × (of_thread 11 placed.placed ≡ [])
    × (of_thread 11 placed.done ≡ [])
unfolding atoi
recver_start-idle_example =
    recver_start-idle twelve stopped placed 11 twelve_one one_job (omega arith)
