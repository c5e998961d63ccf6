-- ===== src/Frame/Tests.antt =====
-- Runs of `TcpServer::parse` of src/core/TcpServer.cpp on small buffers.
use snframe.Base.{
  ℕ, zero, suc, ◌<◌, ◌-◌, drop, ◌==◌, ◌||◌, if◌then◌else◌, ◌+◌, ◌≡◌, ◌≢◌, refl, inl, false, true,
  ◌⊎◌, fault, List, [], ◌∷◌, ◌++◌, length, Outcome, ret, stuck, ◌>>=◌, arith,
}
use snframe.Memory.{slice, peek8, htons}
use snframe.Packet.{Msg, bytes, check, check_byte, xor_bytes}
use snframe.Packet.Fields.{header}
use snframe.Packet.Seal.{checksum, xor_all}
use snframe.Packet.Body.{IsPacket}
use snframe.Packet.Readers.{all_bytes-IsBytes}
use snframe.Protocol.{ProtocolIds}
use snframe.Frame.Resync.{parse-resync}
use snframe.Frame.Sent.{parse-sent}
use snframe.Frame.{Loop, loop, parse, dispatch}
use snframe.Frame.Scan.{packet_of, tagged, scan, announced}
use snframe.Frame.Delivery.{IsFrame, kept, parse-scan}
use snframe.Frame.Stream.{IsWhole, all_nil, all_cons, deliver_all, with_tail, parse-stream}
use snframe.Frame.Progress.{loop-ends}
use snframe.Frame.Safe.{have_bodies, parse-safe}
use snframe.Frame.Arrived.{arrived, arrived-IsFrame, window-arrived}

abbrev ids : ProtocolIds
ids = record {
  sid_other = 1;
  sid_router = 2;
  sid_conn = 3;
  sid_db_proxy = 4;
  sid_user_state = 5;
  cid_other_authentication_req = 1;
  cid_other_authentication_rsp = 2;
  cid_other_heartbeat = 3;
  cid_router_client_register_req = 4;
  cid_router_client_register_rsp = 5;
  cid_router_push_server_status = 6;
}

-- The packets that were delivered, the last one first.
abbrev log : Msg → List (List ℕ) → Outcome (List (List ℕ))
log m w = ret (bytes m.m_data ∷ w)

-- A packet with the body 5.
abbrev hello : List ℕ
hello =
    0x7e ∷ 0xaa ∷ 0 ∷ 0 ∷ 0 ∷ 0 ∷ 0 ∷ 0 ∷ 0 ∷ 0 ∷ 0 ∷ 102 ∷ 35 ∷ 1 ∷ 0 ∷ 9 ∷ 0 ∷ 1 ∷ 0 ∷ 2 ∷ 0 ∷ 0
    ∷ 0 ∷ 0 ∷ 0 ∷ 1 ∷ 4 ∷ 5 ∷ []

hello-IsWhole : IsWhole hello
unfolding announced htons
hello-IsWhole = record { tag = refl; size = refl }

-- Two packets and the first bytes of a third.
abbrev stream : List ℕ
stream = hello ++ hello ++ 0x7e ∷ 0xaa ∷ []

log-ends : (p : Msg) (w : List (List ℕ)) → log p w ≢ stuck
log-ends p w = cc

parse-scan_example :
    (parse log (arrived stream) [] [] >>= λ t. ret (kept t.frame, t.world))
    ≡ scan log (length (kept (arrived stream)) + 1) (kept (arrived stream)) []
parse-scan_example =
    parse-scan log (arrived stream) [] (arrived-IsFrame stream (omega arith)) (inl refl)

parse-stream_example :
    (parse log (arrived stream) [] [] >>= λ t. ret (kept t.frame, t.world))
    ≡ (deliver_all log (hello ∷ hello ∷ []) [] >>= with_tail (0x7e ∷ 0xaa ∷ []))
parse-stream_example =
    parse-stream log (arrived stream) (hello ∷ hello ∷ []) (0x7e ∷ 0xaa ∷ []) []
      (arrived-IsFrame stream (omega arith)) refl (window-arrived stream (omega arith))
      (all_cons hello (hello ∷ []) hello-IsWhole (all_cons hello [] hello-IsWhole all_nil))
      (omega arith)

parse-safe_example :
    ((have_bodies (length (kept (arrived stream)) + 1) (kept (arrived stream)) ≡ true)
      × (t : Loop (List (List ℕ))) × (parse (dispatch ids log log) (arrived stream) [] [] ≡ ret t)
      × IsFrame t.frame)
    ⊎ ((have_bodies (length (kept (arrived stream)) + 1) (kept (arrived stream)) ≡ false)
        × (parse (dispatch ids log log) (arrived stream) [] [] ≡ fault))
parse-safe_example =
    parse-safe ids log log (λ p v. (bytes p.m_data ∷ v, refl)) (λ p v. (bytes p.m_data ∷ v, refl))
      (arrived stream) [] (arrived-IsFrame stream (omega arith)) (inl refl)

loop-ends_example :
    loop log
      (length stream + 1 + 1)
      (record { frame = arrived stream; pos = 0; answers = false ∷ true ∷ []; world = [] })
    ≢ stuck
loop-ends_example = loop-ends log log-ends (arrived stream) (false ∷ true ∷ []) []

-- One byte before a packet.
abbrev noisy : List ℕ
noisy = 0 ∷ hello

kept-noisy : kept (arrived noisy) ≡ noisy
kept-noisy = window-arrived noisy (omega arith)

parse-resync_example : (parse log (arrived noisy) [] [] >>= λ t. ret (kept t.frame, t.world)) ≡ (
    if 1 == length (kept (arrived noisy)) - 1 - 1
    then ret ([], [])
    else scan log (length (kept (arrived noisy))) (drop 1 (kept (arrived noisy))) [])
parse-resync_example =
    parse-resync log (arrived noisy) 1 [] (arrived-IsFrame noisy (omega arith)) refl
      (rw kept-noisy (omega arith)) (omega arith) (rw kept-noisy (omega arith)) before
      (rw kept-noisy refl)
  where
    before : (j : ℕ) → j < 1 → tagged (kept (arrived noisy)) j ≡ false
    before zero h = rw kept-noisy refl
    before (suc j) h = absurd (omega arith)

-- The same packet as a message.
hello-IsPacket : IsPacket (packet_of hello) (header hello) (5 ∷ [])
unfolding header htons checksum xor_all slice check check_byte xor_bytes peek8
hello-IsPacket = record {
  block = hello;
  held = refl;
  size = refl;
  fits = omega arith;
  head = refl;
  content = refl;
  passes = refl;
}

hello-flags : (header hello).flags ≡ 0x7eaa
unfolding header htons
hello-flags = refl

parse-sent_example :
    (parse (dispatch ids log log) (arrived hello) [] [] >>= λ t. ret (kept t.frame, t.world)) ≡ (
      (if (header hello).service_id == ids.sid_router || (header hello).service_id == ids.sid_other
        then log (packet_of hello) []
        else log (packet_of hello) [])
      >>= with_tail [])
unfolding hello-IsPacket
parse-sent_example =
    parse-sent (packet_of hello) (header hello) (5 ∷ []) hello-IsPacket ids log log (arrived hello)
      [] hello-flags (all_bytes-IsBytes hello refl) (omega arith)
      (arrived-IsFrame hello (omega arith)) refl (window-arrived hello (omega arith))
