-- ===== src/Nodes/Tests.antt =====
-- Runs of src/core/ServiceNode.cpp on a few nodes.
use snframe.Base.{◌≡◌, refl, true, false, some, none, [], ◌∷◌, ◌+◌, leb, if◌then◌else◌, arith}
use snframe.Nodes.{set_state, Node, node_able, node_error, find_node, beats}
use snframe.Nodes.Reconnect.{
  refused_turns, refused-limit, failing_turns, failing-unlimited, run_beats, beats-once,
}
use snframe.Nodes.Manager.{get_service_node, authentication_rsp, mgr_find_node, mgr_available}
use snframe.Nodes.Stalls.{rsp-stalls}
use snframe.Packet.{Msg}
use snframe.Net.{Connection, NetManager, state_auth, state_connected, send_sock}
use snframe.Net.Waiting.{waits}

abbrev broken : Node
broken = record { num = 0; id = 7; type = 1; state = node_error; context = some 3; persist = true }

abbrev able : Node
able = record { num = 0; id = 8; type = 1; state = node_able; context = some 4; persist = true }

refused-limit_example :
    refused_turns 5 false (some broken)
    ≡ (if leb (0 + 5) 4 then some (record broken { num = 0 + 5 }) else none)
refused-limit_example = refused-limit 5 false broken refl refl (omega arith)

failing-unlimited_example :
    (m : Node) × (failing_turns (5 ∷ 6 ∷ 9 ∷ []) false (some broken) ≡ some m)
    × (m.id ≡ 7)
    × (m.num ≡ 0)
failing-unlimited_example = failing-unlimited (6 ∷ 9 ∷ []) 5 false broken refl refl (omega arith)

beats-once_example : run_beats 0 ((able ∷ []) ∷ (able ∷ []) ∷ []) ≡ beats (able ∷ [])
beats-once_example = beats-once (able ∷ []) ((able ∷ []) ∷ [])

-- Node 7 is authenticated on the first of two connections.
abbrev first : Connection
first = record { fd = 3; sid = 1; nid = 7; state = state_auth; evs = 1; out_buffer = [] }

abbrev second : Connection
second = record { fd = 4; sid = 2; nid = 8; state = state_connected; evs = 1; out_buffer = [] }

abbrev one_byte : Msg
one_byte = record { m_data = some (5 ∷ []); m_len = 1; m_alloc = 1 }

rsp-stalls_example :
    let sent : NetManager =
      (send_sock one_byte 3 (record { conns = first ∷ second ∷ []; events = [] })).0 in
    (d : Connection) × ((authentication_rsp (some (1, 7)) 3 ((1, broken ∷ []) ∷ []) sent).1.conns
      ≡ d ∷ second ∷ [])
    × (mgr_find_node 1 7 (authentication_rsp (some (1, 7)) 3 ((1, broken ∷ []) ∷ []) sent).0
        ≡ some (set_state node_able broken))
    × (mgr_available 1 7 (authentication_rsp (some (1, 7)) 3 ((1, broken ∷ []) ∷ []) sent).0 ≡ true)
    × (d.state ≡ state_connected)
    × (d.out_buffer ≡ one_byte ∷ [])
    × (waits d ≡ false)
unfolding get_service_node find_node
rsp-stalls_example =
    rsp-stalls 1 7 ((1, broken ∷ []) ∷ []) (broken ∷ []) broken one_byte [] first (second ∷ []) []
      refl refl refl refl refl
