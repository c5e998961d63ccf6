-- ===== src/Nodes/Found.antt =====
-- What a service of src/core/NodeMgr.cpp has, and what stays when nodes are added or changed.
use mathlib.Core.Bool.{false≢true}
use snframe.Base.{
  ap, sym, ℕ, ◌≡◌, refl, ◌∙◌, Bool, true, false, Option, none, some, List, [], ◌∷◌, ◌++◌, ◌==◌,
  ==_iff, Bool-cases, Option-cases, inl, inr, if◌then◌else◌, arith,
}
use snframe.Nodes.{Node, new_node, find_node}
use snframe.Nodes.Manager.{Services, get_service_node, on_service, on_node, mgr_find_node}

abbrev pub is_some {ℓ} : {A : Type ℓ} → Option A → Bool
is_some none = false
is_some (some a) = true

abbrev pub has : ℕ → List Node → Bool
has nid ns = is_some (find_node nid ns)

abbrev pub registered : ℕ → Services → Bool
registered type ss = is_some (get_service_node type ss)

-- Services that have what others have, and are registered where those are.
pub record Extends (ss ts : Services) : Type 0 where
  pub services : (type : ℕ) → registered type ts ≡ registered type ss
  pub nodes :
      (type nid : ℕ)
      → is_some (mgr_find_node type nid ss) ≡ true
      → is_some (mgr_find_node type nid ts) ≡ true

pub Extends-refl : (ss : Services) → Extends ss ss
Extends-refl ss = record { services = λ type. refl; nodes = λ type nid h. h }

pub Extends-trans : (ss ts us : Services) → Extends ss ts → Extends ts us → Extends ss us
Extends-trans ss ts us e f = record {
  services = λ type. f.services type ∙ e.services type;
  nodes = λ type nid h. f.nodes type nid (e.nodes type nid h);
}

pub registered-on_service :
    (sid type : ℕ) (f : List Node → List Node) (ss : Services)
    → registered type (on_service sid f ss) ≡ registered type ss
unfolding get_service_node on_service
registered-on_service sid type f [] = refl
registered-on_service sid type f ((own, ns) ∷ ss) =
    ground (arith, registered-on_service sid type f ss)

abbrev after : (List Node → List Node) → Option (List Node) → Option (List Node)
after f none = none
after f (some ns) = some (f ns)

pub get-on_service :
    (sid type : ℕ) (f : List Node → List Node) (ss : Services)
    → get_service_node type (on_service sid f ss)
      ≡ (if type == sid then after f (get_service_node type ss) else get_service_node type ss)
unfolding get_service_node on_service
get-on_service sid type f [] = ground arith
get-on_service sid type f ((own, ns) ∷ ss) = ground (arith, get-on_service sid type f ss)

abbrev found_in : ℕ → Option (List Node) → Bool
found_in nid none = false
found_in nid (some ns) = has nid ns

pub found_lem :
    (type nid : ℕ) (ss : Services)
    → is_some (mgr_find_node type nid ss) ≡ found_in nid (get_service_node type ss)
unfolding mgr_find_node
found_lem type nid ss = elim (Option-cases (get_service_node type ss)) [
  | inl e ↦ rw (e, mgr_find_node) refl
  | inr (ns, e) ↦ rw (e, mgr_find_node) refl
]

keeps :
    (nid : ℕ) (f : List Node → List Node) (o : Option (List Node))
    → ((ns : List Node) → o ≡ some ns → has nid ns ≡ true → has nid (f ns) ≡ true)
    → found_in nid o ≡ true
    → found_in nid (after f o) ≡ true
keeps nid f none keep h = h
keeps nid f (some ns) keep h = keep ns refl h

pub found-on_service :
    (sid type nid : ℕ) (f : List Node → List Node) (ss : Services)
    → ((ns : List Node)
        → get_service_node sid ss ≡ some ns
        → has nid ns ≡ true
        → has nid (f ns) ≡ true)
    → is_some (mgr_find_node type nid ss) ≡ true
    → is_some (mgr_find_node type nid (on_service sid f ss)) ≡ true
found-on_service sid type nid f ss keep h =
    rw (found_lem, get-on_service)
      (elim (Bool-cases (type == sid)) [
        | inl e ↦ rw e (
            keeps nid f (get_service_node type ss)
              (λ ns g. keep ns (rw (← (==_iff type sid).0 e) g)) (rw found_lem at h))
        | inr e ↦ rw e (rw found_lem at h)
      ])

pub has-push :
    (nid : ℕ) (n : Node) (ns : List Node) → has nid ns ≡ true → has nid (ns ++ n ∷ []) ≡ true
unfolding find_node
has-push nid n [] h = cc
has-push nid n (m ∷ ns) h = ground (arith, has-push nid n ns)

pub has-new : (nid sid : ℕ) (ns : List Node) → has nid (ns ++ new_node sid nid ∷ []) ≡ true
unfolding find_node new_node
has-new nid sid [] = ground arith
has-new nid sid (m ∷ ns) = ground (arith, has-new nid sid ns)

pub has-on_node :
    (nid other : ℕ) (f : Node → Node) (ns : List Node)
    → ((n : Node) → (f n).id ≡ n.id)
    → has nid ns ≡ true
    → has nid (on_node other f ns) ≡ true
unfolding find_node on_node
has-on_node nid other f [] same h = h
has-on_node nid other f (m ∷ ns) same h = ground (arith, same m, has-on_node nid other f ns same)

-- What a node becomes, where the function keeps its id.
pub find-on_node :
    (nid : ℕ) (f : Node → Node) (ns : List Node) (n : Node)
    → ((m : Node) → (f m).id ≡ m.id)
    → find_node nid ns ≡ some n
    → find_node nid (on_node nid f ns) ≡ some (f n)
unfolding find_node on_node
find-on_node nid f [] n same e = cc
find-on_node nid f (m ∷ ns) n same e = elim (Bool-cases (m.id == nid)) [
  | inl here ↦
      let still : ((f m).id == nid) ≡ true = ground (arith, same m) in
      rw (here, still) (ap mapped (let found : some m ≡ some n = rw here at e in found))
  | inr other ↦ rw (other, find_node, other) (find-on_node nid f ns n same (rw other at e))
]
  where
    mapped : Option Node → Option Node
    mapped none = none
    mapped (some x) = some (f x)

pub find-push :
    (nid sid : ℕ) (ns : List Node)
    → has nid ns ≡ false
    → find_node nid (ns ++ new_node sid nid ∷ []) ≡ some (new_node sid nid)
unfolding find_node new_node
find-push nid sid [] h = ground arith
find-push nid sid (m ∷ ns) h = elim (Bool-cases (m.id == nid)) [
  | inl here ↦ absurd (false≢true (sym (rw here at h)))
  | inr other ↦ rw other (find-push nid sid ns (rw other at h))
]

pub find-on_service :
    (sid nid : ℕ) (f : List Node → List Node) (ss : Services) (ns : List Node)
    → get_service_node sid ss ≡ some ns
    → mgr_find_node sid nid (on_service sid f ss) ≡ find_node nid (f ns)
unfolding mgr_find_node
find-on_service sid nid f ss ns e =
    rw (mgr_find_node, get-on_service sid sid f ss, (==_iff sid sid).1 refl, e) refl
