-- ===== src/Nodes/Joins.antt =====
-- One server and one type of a broadcast of src/core/RouterNode.cpp.
use mathlib.Core.Path.{subst}
use mathlib.Core.Bool.{false≢true}
use snframe.Base.{
  ℕ, zero, suc, ◌≡◌, refl, sym, ◌∙◌, Bool, true, false, not, ◌||◌, Option, none, some, List, [],
  ◌∷◌, ◌++◌, ==_iff, Option-cases, inl, inr, ret,
}
use snframe.Nodes.{Node, new_node, set_state, add_node}
use snframe.Nodes.Manager.{
  Services, get_service_node, on_service, on_node, mgr_find_node, mgr_add_node,
}
use snframe.Nodes.Router.{Joining, fits_ip, joining, join_node, join_type, join_connected}
use snframe.Nodes.Found.{
  is_some, has, registered, Extends, Extends-refl, Extends-trans, registered-on_service,
  get-on_service, found_lem, found-on_service, has-push, has-new, has-on_node,
}

-- The service is registered only if it has the node.
abbrev pub settled : ℕ → Services → ℕ → Bool
settled nid ss type = not (registered type ss) || is_some (mgr_find_node type nid ss)

-- The next `n` calls of connect succeed.
abbrev pub granted : ℕ → List (Option ℕ) → Bool
granted zero answers = true
granted (suc n) [] = false
granted (suc n) (none ∷ answers) = false
granted (suc n) (some fd ∷ answers) = granted n answers

granted-less :
    (n : ℕ) (answers : List (Option ℕ)) → granted (suc n) answers ≡ true → granted n answers ≡ true
granted-less zero answers h = refl
granted-less (suc n) [] h = cc
granted-less (suc n) (none ∷ answers) h = cc
granted-less (suc n) (some fd ∷ answers) h = granted-less n answers h

pub add-registered :
    (type nid : ℕ) (ss : Services) (ns : List Node)
    → get_service_node type ss ≡ some ns
    → mgr_add_node type nid ss ≡ some (on_service type (λ _. ns ++ new_node type nid ∷ []) ss)
unfolding mgr_add_node add_node
add-registered type nid ss ns e = rw (e, mgr_add_node, (==_iff type type).1 refl) refl

or_true : (b : Bool) → (b || true) ≡ true
or_true true = refl
or_true false = refl

-- What one step leaves: nothing is lost, it is settled for this type, and so many answers are left.
pub record Settles (n nid type : ℕ) (j k : Joining) : Type 0 where
  pub extends : Extends j.services k.services
  pub settles : settled nid k.services type ≡ true
  pub left : granted n k.answers ≡ true

module _ (n type nid fd : ℕ) (ip : List ℕ) (j : Joining) (ns : List Node) where
  added : Services
  added = on_service type (λ _. ns ++ new_node type nid ∷ []) j.services

  joins : Joining
  unfolding added
  joins = record j {
    services = on_service type (on_node nid (joining fd)) added;
    joined = j.joined ++ (fd, type, nid) ∷ [];
  }

  module _ (e : get_service_node type j.services ≡ some ns) where
    added-Extends : Extends j.services added
    unfolding added
    added-Extends = record {
      services = λ other. registered-on_service type other _ j.services;
      nodes = λ other id h. found-on_service type other id _ j.services (pushed id) h;
    }
      where
        inj : (xs ys : List Node) → some xs ≡ some ys → xs ≡ ys
        inj xs ys h = cc

        pushed :
            (id : ℕ) (ms : List Node)
            → get_service_node type j.services ≡ some ms
            → has id ms ≡ true
            → has id (ns ++ new_node type nid ∷ []) ≡ true
        pushed id ms f h =
            has-push id (new_node type nid) ns
              (subst (λ xs. has id xs ≡ true) (inj ms ns (sym f ∙ e)) h)

    joins-found : is_some (mgr_find_node type nid joins.services) ≡ true
    unfolding joins added set_state
    joins-found =
        rw (found_lem, get-on_service, get-on_service, e, (==_iff type type).1 refl)
          (has-on_node nid nid (joining fd) _ (λ n. refl) (has-new nid type ns))

  joining-Extends : Extends added joins.services
  unfolding joins set_state
  joining-Extends = record {
    services = λ other. registered-on_service type other _ added;
    nodes = λ other id h.
        found-on_service type other id _ added
          (λ ms f g. has-on_node id nid (joining fd) ms (λ m. refl) g) h;
  }

  join_node-Settles :
      get_service_node type j.services ≡ some ns
      → fits_ip ip ≡ true
      → granted n j.answers ≡ true
      → (join_node type nid fd ip j ≡ ret joins) × Settles n nid type j joins
  unfolding join_node joins
  join_node-Settles e short g = (
    rw (join_node, add-registered type nid j.services ns e, short) (unfold joins added in refl),
    record {
      extends = Extends-trans j.services added joins.services (added-Extends e) joining-Extends;
      settles = rw (joins-found e) (or_true (not (registered type joins.services)));
      left = unfold joins in g;
    },
  )

granted-inv :
    (n : ℕ) (answers : List (Option ℕ))
    → granted (suc n) answers ≡ true
    → (fd : ℕ) × (rest : List (Option ℕ)) × (answers ≡ some fd ∷ rest) × (granted n rest ≡ true)
granted-inv n [] h = absurd (false≢true h)
granted-inv n (none ∷ answers) h = absurd (false≢true h)
granted-inv n (some fd ∷ answers) h = (fd, answers, refl, h)

pub join_type-Settles :
    (n nid : ℕ) (ip : List ℕ) (type : ℕ) (j : Joining)
    → fits_ip ip ≡ true
    → granted (suc n) j.answers ≡ true
    → (k : Joining) × (join_type nid ip type j ≡ ret (k, true)) × Settles n nid type j k
unfolding join_type
join_type-Settles n nid ip type j short g =
    elim (Option-cases (mgr_find_node type nid j.services)) [
      | inr (m, e) ↦ (
        j,
        rw (join_type, e) refl,
        record {
          extends = Extends-refl j.services;
          settles = rw e (or_true (not (registered type j.services)));
          left = granted-less n j.answers g;
        },
      )
      | inl e ↦ elim (Option-cases (get_service_node type j.services)) [
        | inl f ↦ (
          j,
          rw (join_type, e, f) refl,
          record {
            extends = Extends-refl j.services;
            settles = rw f refl;
            left = granted-less n j.answers g;
          },
        )
        | inr (ns, f) ↦
            let (fd, rest, here, more) = granted-inv n j.answers g in
            let (runs, s) =
              join_node-Settles n type nid fd ip (record j { answers = rest }) ns f short more in
            (
              joins n type nid fd ip (record j { answers = rest }) ns,
              rw (join_type, e, f, here) (unfold join_connected in rw runs refl),
              record { extends = s.extends; settles = s.settles; left = s.left },
            )
      ]
    ]
