-- ===== src/Nodes/Start.antt =====
-- `NodeMgr::init` of src/core/NodeMgr.cpp and `CreateServiceNode` of src/core/ServiceNode.cpp: the
-- table of services is made of the numbers in one value of the configuration, and the router's service
-- registers the process.
use snframe.Base.{
  ℕ, zero, suc, Bool, ◌||◌, Option, none, some, List, [], ◌∷◌, ◌++◌, ◌==◌, if◌then◌else◌, Outcome,
  ret, fault, ◌>>=◌,
}
use snframe.Decimal.{atoi}
use snframe.Protocol.{ProtocolIds}
use snframe.Packet.{MessageLite}
use snframe.Nodes.{Node}
use snframe.Nodes.Manager.{Services}
use snframe.Nodes.Router.{Registration, connect_router, regist_req}

abbrev pub String : Type 0
String = List ℕ

-- MAX_SERVICE_TYPE.
abbrev pub max_service_type : ℕ
max_service_type = 100

-- The loop over `p`; `room` is MAX_SERVICE_TYPE - i. The third argument is the string that the last
-- pointer in `type` has so far, or nothing while the loop skips blanks. Where nothing but blanks
-- follows, `++p` passes the end of the string. Where `type` is full, the last string keeps the rest.
unfoldable pub split_from : ℕ → List ℕ → Option String → Outcome (List String)
split_from room [] none = fault
split_from room [] (some cur) = ret (cur ∷ [])
split_from room (c ∷ cs) none = split_from room cs (if c == 32 then none else some (c ∷ []))
split_from zero (c ∷ cs) (some cur) = ret ((cur ++ c ∷ cs) ∷ [])
split_from (suc room) (c ∷ cs) (some cur) =
    let ends = split_from room cs none >>= λ types. ret (cur ∷ types) in
    let goes_on = split_from (suc room) cs (some (cur ++ c ∷ [])) in
    if c == 32 then ends else goes_on

unfoldable pub split_types : String → Outcome (List String)
split_types services = split_from 99 services (some [])

-- The cases of the switch of `CreateServiceNode`.
abbrev pub is_service : ProtocolIds → ℕ → Bool
is_service ids sid =
    sid == ids.sid_router
    || (sid == ids.sid_conn || (sid == ids.sid_db_proxy || sid == ids.sid_user_state))

-- What `CreateServiceNode` makes: a service, known by the id that its constructor sets, or NULL.
unfoldable pub create_service_node : ProtocolIds → ℕ → Option ℕ
create_service_node ids sid = if is_service ids sid then some sid else none

-- An entry of `m_serviceNode`. `none` is one that nothing is stored in: malloc left it unset.
abbrev pub Table : Type 0
Table = List (Option (ℕ × List Node))

-- `getServiceNode` on the table: a call on an unset entry is a fault.
unfoldable pub table_get : ℕ → Table → Outcome (Option (List Node))
table_get sid [] = ret none
table_get sid (none ∷ table) = fault
table_get sid (some (own, ns) ∷ table) =
    let rest = table_get sid table in if own == sid then ret (some ns) else rest

-- The entries that are set, and the table with these services in their place.
unfoldable pub set_entries : Table → Services
set_entries [] = []
set_entries (none ∷ table) = set_entries table
set_entries (some s ∷ table) = s ∷ set_entries table

unfoldable pub with_entries : Table → Services → Table
with_entries [] ss = []
with_entries (none ∷ table) ss = none ∷ with_entries table ss
with_entries (some s ∷ table) [] = some s ∷ with_entries table []
with_entries (some s ∷ table) (t ∷ ss) = some t ∷ with_entries table ss

-- What `init` has made: the table as far as it is filled, the registrations with the router, and the
-- answers of `connect` that are left.
pub record Started : Type 0 where
  pub table : Table
  pub registrations : List Registration
  pub answers : List (Option ℕ)

-- The configured value `service_type` after `init`: each word but the last is cut off by a zero byte,
-- so that the string ends behind the first.
unfoldable pub left_of_value : List String → String
left_of_value [] = []
left_of_value (type ∷ types) = type

-- `router_configured`: cur_node_type, RouteServerIP1 and RouteServerPort1 are there; `configured`,
-- `granted`, `pb` and `ip` are those of `registReq`.
module _ (ids : ProtocolIds) (router_configured configured granted : Bool) (pb : MessageLite)
    (ip : List ℕ) where
  -- `RouterNode::init`, behind which the entry of the router is the last of the table. Its lookup of
  -- the router's service starts at the first entry.
  unfoldable pub router_init : Started → Outcome Started
  router_init s =
      if router_configured
      then (regist_req ids configured granted pb ip s.answers (set_entries s.table) >>= elim [
        | none ↦ ret (record s { answers = left })
        | some r ↦ table_get ids.sid_router s.table >>= λ _. ret (record {
          table = with_entries s.table r.services;
          registrations = s.registrations ++ r ∷ [];
          answers = left;
        })
      ])
      else ret s
    where
      left : List (Option ℕ)
      left = if configured then (connect_router 4 0 s.answers).2 else s.answers

  -- `snode->init`, whose result is ignored. ConnNode, DbNode and StateNode do nothing there.
  unfoldable pub service_init : ℕ → Started → Outcome Started
  service_init sid s = if sid == ids.sid_router then router_init s else ret s

  unfoldable pub fill_table : List String → Started → Outcome Started
  fill_table [] s = ret s
  fill_table (type ∷ types) s = elim (create_service_node ids (atoi type)) [
    | none ↦ fill_table types (record s { table = s.table ++ none ∷ [] })
    | some sid ↦
        service_init sid (record s { table = s.table ++ some (sid, []) ∷ [] }) >>= fill_table types
  ]

  -- `none` is the answer -1.
  unfoldable pub mgr_init : Option String → List (Option ℕ) → Outcome (Option (String × Started))
  mgr_init none answers = ret none
  mgr_init (some services) answers = split_types services >>= λ types.
      fill_table types (record { table = []; registrations = []; answers = answers }) >>= λ s.
      ret (some (left_of_value types, s))
