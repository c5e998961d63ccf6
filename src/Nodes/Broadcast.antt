-- ===== src/Nodes/Broadcast.antt =====
-- What a broadcast of src/core/RouterNode.cpp leaves: the nodes of all servers that are enabled and
-- that a service is registered for.
use snframe.Base.{
  and_inv, ℕ, suc, ◌≡◌, refl, Bool, true, not, ◌&&◌, ◌||◌, some, List, [], ◌∷◌, Bool-cases, inl,
  inr, if◌then◌else◌, ret, ◌>>=◌, arith,
}
use snframe.Nodes.Manager.{Services, mgr_find_node}
use snframe.Nodes.Router.{
  ServerStatus, Joining, fits_ip, join_type, and_then, join_types, join_server, join_servers,
  srvinfo_broadcast,
}
use snframe.Nodes.Found.{is_some, registered, Extends, Extends-refl, Extends-trans}
use snframe.Nodes.Joins.{settled, granted, join_type-Settles}

abbrev pub all_settled : ℕ → Services → List ℕ → Bool
all_settled nid ss [] = true
all_settled nid ss (type ∷ types) = settled nid ss type && all_settled nid ss types

abbrev pub server_settled : Services → ServerStatus → Bool
server_settled ss s = not s.is_enable || all_settled s.node_id ss s.service_type

-- Every server that is enabled has a node in each of its services that is registered.
abbrev pub servers_settled : Services → List ServerStatus → Bool
servers_settled ss [] = true
servers_settled ss (s ∷ servers) = server_settled ss s && servers_settled ss servers

-- The addresses fit into the fields that they are copied to.
abbrev pub short_ips : List ServerStatus → Bool
short_ips [] = true
short_ips (s ∷ servers) = fits_ip s.server_ip && short_ips servers

settled-Extends :
    (nid : ℕ) (ss ts : Services) (type : ℕ)
    → Extends ss ts
    → settled nid ss type ≡ true
    → settled nid ts type ≡ true
settled-Extends nid ss ts type e h = ground (arith, e.services type, e.nodes type nid)

all_settled-Extends :
    (nid : ℕ) (ss ts : Services) (types : List ℕ)
    → Extends ss ts
    → all_settled nid ss types ≡ true
    → all_settled nid ts types ≡ true
all_settled-Extends nid ss ts [] e h = refl
all_settled-Extends nid ss ts (type ∷ types) e h =
    ground (arith, settled-Extends nid ss ts type e, all_settled-Extends nid ss ts types e)

server_settled-Extends :
    (ss ts : Services) (s : ServerStatus)
    → Extends ss ts
    → server_settled ss s ≡ true
    → server_settled ts s ≡ true
server_settled-Extends ss ts s e h =
    ground (arith, all_settled-Extends s.node_id ss ts s.service_type e)

-- Nothing is lost, this much is settled, and so many answers are left.
record Joins (n : ℕ) (settles : Services → Bool) (j k : Joining) : Type 0 where
  extends : Extends j.services k.services
  settled_now : settles k.services ≡ true
  left : granted n k.answers ≡ true

-- At most so many calls of connect, and `n` more.
abbrev pub type_calls : List ℕ → ℕ → ℕ
type_calls [] n = n
type_calls (type ∷ types) n = suc (type_calls types n)

abbrev pub server_calls : List ServerStatus → ℕ → ℕ
server_calls [] n = n
server_calls (s ∷ servers) n =
    let more = server_calls servers n in
    if s.is_enable then type_calls s.service_type more else more

join_types-Joins :
    (n nid : ℕ) (ip : List ℕ) (types : List ℕ) (j : Joining)
    → fits_ip ip ≡ true
    → granted (type_calls types n) j.answers ≡ true
    → (k : Joining) × (join_types nid ip types j ≡ ret (k, true))
      × Joins n (λ ss. all_settled nid ss types) j k
unfolding join_types
join_types-Joins n nid ip [] j short g =
    (j, refl, record { extends = Extends-refl j.services; settled_now = refl; left = g })
join_types-Joins n nid ip (type ∷ types) j short g =
    let (k, runs, s) = join_type-Settles (type_calls types n) nid ip type j short g in
    let (l, more, t) = join_types-Joins n nid ip types k short s.left in
    (
      l,
      rw (runs, ◌>>=◌, and_then) more,
      record {
        extends = Extends-trans j.services k.services l.services s.extends t.extends;
        settled_now =
            rw (settled-Extends nid k.services l.services type t.extends s.settles) t.settled_now;
        left = t.left;
      },
    )

join_server-Joins :
    (n : ℕ) (s : ServerStatus) (j : Joining)
    → fits_ip s.server_ip ≡ true
    → granted (if s.is_enable then type_calls s.service_type n else n) j.answers ≡ true
    → (k : Joining) × (join_server s j ≡ ret (k, true)) × Joins n (λ ss. server_settled ss s) j k
unfolding join_server
join_server-Joins n s j short g = elim (Bool-cases s.is_enable) [
  | inr off ↦ (
    j,
    rw off refl,
    record { extends = Extends-refl j.services; settled_now = rw off refl; left = rw off at g },
  )
  | inl on ↦
      let (k, runs, t) =
        join_types-Joins n s.node_id s.server_ip s.service_type j short (rw on at g) in
      (
        k,
        rw on runs,
        record { extends = t.extends; settled_now = rw on t.settled_now; left = t.left },
      )
]

join_servers-Joins :
    (n : ℕ) (servers : List ServerStatus) (j : Joining)
    → short_ips servers ≡ true
    → granted (server_calls servers n) j.answers ≡ true
    → (k : Joining) × (join_servers servers j ≡ ret (k, true))
      × Joins n (λ ss. servers_settled ss servers) j k
unfolding join_servers
join_servers-Joins n [] j short g =
    (j, refl, record { extends = Extends-refl j.services; settled_now = refl; left = g })
join_servers-Joins n (s ∷ servers) j short g =
    let (here, rest) = and_inv (fits_ip s.server_ip) (short_ips servers) short in
    let (k, runs, t) = join_server-Joins (server_calls servers n) s j here g in
    let (l, more, u) = join_servers-Joins n servers k rest t.left in
    (
      l,
      rw (runs, ◌>>=◌, and_then) more,
      record {
        extends = Extends-trans j.services k.services l.services t.extends u.extends;
        settled_now =
            rw (server_settled-Extends k.services l.services s u.extends t.settled_now)
              u.settled_now;
        left = u.left;
      },
    )

-- Where all is settled, a broadcast does nothing.
join_type-settled :
    (nid : ℕ) (ip : List ℕ) (type : ℕ) (j : Joining)
    → settled nid j.services type ≡ true
    → join_type nid ip type j ≡ ret (j, true)
unfolding join_type
join_type-settled nid ip type j h = ground arith

join_types-settled :
    (nid : ℕ) (ip : List ℕ) (types : List ℕ) (j : Joining)
    → all_settled nid j.services types ≡ true
    → join_types nid ip types j ≡ ret (j, true)
unfolding join_types
join_types-settled nid ip [] j h = refl
join_types-settled nid ip (type ∷ types) j h =
    let (here, rest) = and_inv (settled nid j.services type) _ h in
    rw (join_type-settled nid ip type j here) (join_types-settled nid ip types j rest)

join_servers-settled :
    (servers : List ServerStatus) (j : Joining)
    → servers_settled j.services servers ≡ true
    → join_servers servers j ≡ ret (j, true)
unfolding join_servers join_server
join_servers-settled [] j h = refl
join_servers-settled (s ∷ servers) j h =
    let (here, rest) = and_inv (server_settled j.services s) _ h in
    elim (Bool-cases s.is_enable) [
      | inr off ↦ rw off (join_servers-settled servers j rest)
      | inl on ↦
          rw (on, join_types-settled s.node_id s.server_ip s.service_type j (rw on at here))
            (join_servers-settled servers j rest)
    ]

-- The addresses in a broadcast fit, and each call of connect that it may make succeeds. The broadcast
-- then succeeds; every enabled server has a node in each of its services that is registered; every
-- node that was found is found, and the same services are registered. The same broadcast again makes
-- no connection and changes nothing.
pub broadcast-settles :
    (servers : List ServerStatus) (j : Joining)
    → short_ips servers ≡ true
    → granted (server_calls servers 0) j.answers ≡ true
    → (k : Joining) × (srvinfo_broadcast (some servers) j ≡ ret (k, true))
      × (servers_settled k.services servers ≡ true)
      × ((type : ℕ) → registered type k.services ≡ registered type j.services)
      × ((type nid : ℕ)
          → is_some (mgr_find_node type nid j.services) ≡ true
          → is_some (mgr_find_node type nid k.services) ≡ true)
      × (srvinfo_broadcast (some servers) k ≡ ret (k, true))
unfolding srvinfo_broadcast
broadcast-settles servers j short g =
    let (k, runs, t) = join_servers-Joins 0 servers j short g in
    (
      k,
      runs,
      t.settled_now,
      t.extends.services,
      t.extends.nodes,
      join_servers-settled servers k t.settled_now,
    )
