-- ===== src/Packet/Tests.antt =====
-- Runs of src/base/PbBuf.cpp on small packets.
use snframe.Base.{
  ℕ, ◌+◌, ◌*◌, ◌^◌, ◌≤◌, ◌≡◌, refl, inr, true, false, some, [], ◌∷◌, set, ret, fault, arith,
}
use snframe.Memory.{Block, peek8, zeros, length-zeros}
use snframe.Packet.{Msg, set_data, MessageLite, check, check_byte, xor_bytes}
use snframe.Packet.Header.{
  get_company_id, get_packge_number, get_data_len, get_protocl, get_sid, get_cmd, get_msg_id,
  get_version, get_srv_id, get_socket_id,
}
use snframe.Packet.Fields.{header}
use snframe.Packet.Readers.{all_bytes-IsBytes, readers-header}
use snframe.Packet.Body.{IsPacket}
use snframe.Packet.Data.{Holds, set_data-IsPacket}
use snframe.Packet.Check.{check_detects, check-fault}

-- A packet with the body 5.
abbrev hello : Block
hello =
    0x7e ∷ 0xaa ∷ 0 ∷ 0 ∷ 0 ∷ 0 ∷ 0 ∷ 0 ∷ 0 ∷ 0 ∷ 0 ∷ 102 ∷ 35 ∷ 1 ∷ 0 ∷ 9 ∷ 0 ∷ 1 ∷ 0 ∷ 2 ∷ 0 ∷ 0
    ∷ 0 ∷ 0 ∷ 0 ∷ 1 ∷ 4 ∷ 5 ∷ []

abbrev hello_msg : Msg
hello_msg = record { m_data = some hello; m_len = 28; m_alloc = 28 }

-- An empty message of this capacity.
abbrev blank : ℕ → Msg
blank n = record { m_data = some (zeros n); m_len = 0; m_alloc = n }

blank-Holds : (n : ℕ) → 27 ≤ n → Holds (blank n) (zeros n)
blank-Holds n h = record {
  held = refl;
  exact = length-zeros n;
  header_room = omega (arith, length-zeros n);
}

hello-passes : check hello_msg ≡ ret true
unfolding check check_byte xor_bytes peek8
hello-passes = refl

readers-header_example :
    (get_srv_id hello_msg ≡ ret (header hello).conn_server_id)
    × (get_socket_id hello_msg ≡ ret (header hello).socket_id)
    × (get_version hello_msg ≡ ret (header hello).ver)
    × (get_msg_id hello_msg ≡ ret (header hello).msg_id)
    × (get_packge_number hello_msg ≡ ret (header hello).msg_id)
    × (get_sid hello_msg ≡ ret (header hello).service_id)
    × (get_cmd hello_msg ≡ ret (header hello).cmd_id)
    × (get_protocl hello_msg ≡ ret ((header hello).service_id * 2 ^ 16 + (header hello).cmd_id))
    × (get_company_id hello_msg ≡ ret (header hello).company_id)
    × (get_data_len hello_msg ≡ ret (header hello).len)
readers-header_example =
    readers-header hello_msg hello refl (omega arith) (all_bytes-IsBytes hello refl)

abbrev five : MessageLite
five = record { byte_size = 1; serialize_to_array = λ n. some (5 ∷ []) }

set_data-IsPacket_example :
    (m : Msg) × (set_data (some (λ i. 0)) (blank 27) (some (5 ∷ 6 ∷ [])) 2 ≡ ret (m, true))
    × IsPacket m (header (zeros 27)) (5 ∷ 6 ∷ [])
set_data-IsPacket_example =
    set_data-IsPacket (some (λ i. 0)) (blank 27) (zeros 27) (5 ∷ 6 ∷ []) 2
      (blank-Holds 27 (omega arith)) (omega arith) (omega arith) (omega arith)
      (inr ((λ i. 0), refl))

check_detects_example :
    check (record { m_data = some (set hello 27 7); m_len = 28; m_alloc = 28 }) ≡ ret false
check_detects_example =
    check_detects hello_msg hello 27 7 refl (omega arith) (omega arith) hello-passes
      (inr (inr (omega arith, omega arith))) (omega arith)

check-fault_example : check (blank 27) ≡ fault
check-fault_example = check-fault (blank 27) (zeros 27) refl (length-zeros 27)
