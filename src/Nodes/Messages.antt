-- ===== src/Nodes/Messages.antt =====
-- The messages of the router, `RouterNode::parse` with `registRsp` and `set_id` of
-- src/core/RouterNode.cpp, and `NodeMgr::start` of src/core/NodeMgr.cpp.
use snframe.Base.{
  ℕ, ◌-◌, ◌^◌, ◌≤◌, ◌<◌, ◌≡◌, ◌≢◌, refl, Bool, true, false, Option, none, some, List, [], ◌∷◌,
  length, ltb, lt→ltb, le→ltb, ◌==◌, if◌then◌else◌, Outcome, ret, fault, ◌>>=◌, access, arith,
}
use snframe.Config.{ConfigFileReader, set_config_value, get_config_name}
use snframe.Config.Values.{get-set}
use snframe.Decimal.{print_int, atoi, atoi-print, print-short, print-long}
use snframe.Protocol.{ProtocolIds}
use snframe.Timer.{Timers, add_timer}
use snframe.Nodes.Router.{ServerStatus, Joining, srvinfo_broadcast}

-- The callbacks that the process adds as timers: `counter` of IMServer.cpp and `NodeMgr::timer`.
pub data Callback : Type 0 where
  counts : Callback
  node_timer : Callback

-- The state that these messages change: `m_id`, the configuration, the timers, and the nodes.
pub record Router : Type 0 where
  pub m_id : ℕ
  pub config : ConfigFileReader
  pub timers : Timers Callback
  pub nodes : Joining

-- "node_id".
abbrev pub node_id_key : List ℕ
node_id_key = 110 ∷ 111 ∷ 100 ∷ 101 ∷ 95 ∷ 105 ∷ 100 ∷ []

-- The number is printed into ten bytes, the 0 behind it included.
unfoldable pub set_id : ℕ → Router → Outcome Router
set_id nid r =
    access (ltb (length (print_int nid)) 10)
      (record r { m_id = nid; config = (set_config_value node_id_key (print_int nid) r.config).0 })

-- `NodeMgr::start`.
unfoldable pub mgr_start : Router → Router
mgr_start r = record r { timers = add_timer node_timer 1 r.timers }

-- What protobuf reads of the message is the id of the node; the result code is not looked at.
unfoldable pub regist_rsp : Option ℕ → Router → Outcome (Router × Bool)
regist_rsp none r = ret (r, false)
regist_rsp (some nid) r = set_id nid r >>= λ q. ret (mgr_start q, true)

-- `parse`, by the command; the results of the two handlers are not looked at.
unfoldable pub router_parse :
    ProtocolIds → ℕ → Option ℕ → Option (List ServerStatus) → Router → Outcome Router
router_parse ids cid rsp broadcast r =
    if cid == ids.cid_router_client_register_rsp
    then (regist_rsp rsp r >>= λ (q, done). ret q)
    else if cid == ids.cid_router_push_server_status
    then (srvinfo_broadcast broadcast r.nodes >>= λ (nodes, done). ret (record r { nodes = nodes }))
    else ret r

-- The configuration is loaded, and the router gives the process an id below 10 ^ 9: the id is stored,
-- `atoi` reads the same number from the value `node_id` of the configuration, the other values of the
-- configuration and the nodes are as they were, and the nodes' timer is added behind the others.
pub regist_rsp-node_id :
    (r : Router) (nid : ℕ) (other : List ℕ)
    → r.config.load_ok ≡ true
    → nid < 10 ^ 9
    → node_id_key ≢ other
    → (q : Router) × (value : List ℕ) × (regist_rsp (some nid) r ≡ ret (q, true))
      × (q.m_id ≡ nid)
      × (get_config_name node_id_key q.config ≡ some value)
      × (atoi value ≡ nid)
      × (get_config_name other q.config ≡ get_config_name other r.config)
      × (q.nodes ≡ r.nodes)
      × (q.timers ≡ add_timer node_timer 1 r.timers)
unfolding regist_rsp set_id mgr_start
regist_rsp-node_id r nid other ok small ne =
    let (c, sets, reads, others) = get-set r.config node_id_key (print_int nid) other ok ne in
    (
      record r {
        m_id = nid;
        config = (set_config_value node_id_key (print_int nid) r.config).0;
        timers = add_timer node_timer 1 r.timers;
      },
      print_int nid,
      rw (lt→ltb (length (print_int nid)) 10 (omega (arith, print-short nid small))) refl,
      refl,
      rw sets reads,
      atoi-print nid (omega arith),
      rw sets others,
      refl,
      refl,
    )

-- An id from 10 ^ 9 to 2 ^ 32 - 10 ^ 8 has at least ten characters as `%d` prints it, and the 0 behind
-- them is stored past the end of the ten bytes.
pub regist_rsp-fault :
    (r : Router) (nid : ℕ) → 10 ^ 9 ≤ nid → nid ≤ 2 ^ 32 - 10 ^ 8 → regist_rsp (some nid) r ≡ fault
unfolding regist_rsp set_id
regist_rsp-fault r nid lo hi = rw (le→ltb (length (print_int nid)) 10 (print-long nid lo hi)) refl
