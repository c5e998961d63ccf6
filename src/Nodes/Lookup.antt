-- ===== src/Nodes/Lookup.antt =====
-- The nodes of a service in src/core/ServiceNode.cpp: which are found, which can be used, and which a
-- turn of `checkState` leaves alone.
use snframe.Base.{
  ℕ, ◌≡◌, ◌≢◌, refl, ap, ◌∙◌, Bool, Bool-cases, inl, inr, true, false, Option, none, some, List, [],
  ◌∷◌, ◌++◌, ◌==◌, ==_iff, if◌then◌else◌,
}
use mathlib.Core.Bool.{false≢true}
use snframe.Nodes.{
  Turn, kept, Node, is_broken, new_node, Effect, check_node, check_state, find_node, add_node,
  available,
}

find-push :
    (ns : List Node) (nid : ℕ) (n : Node)
    → find_node nid (ns ++ n ∷ [])
      ≡ elim (find_node nid ns) [ none ↦ if n.id == nid then some n else none | some m ↦ some m ]
unfolding find_node
find-push [] nid n = refl
find-push (m ∷ ns) nid n = elim (Bool-cases (m.id == nid)) [
  | inl e ↦ rw e refl
  | inr e ↦ rw e (find-push ns nid n)
]

-- A node that is added to its service is found by its id, if no node had that id, and is not available
-- before its state is set; every other id finds what it found, and is as available as it was.
pub find-add :
    (own nid other : ℕ) (ns : List Node)
    → find_node nid ns ≡ none
    → nid ≢ other
    → (ms : List Node) × (add_node own own nid ns ≡ some ms)
      × (find_node nid ms ≡ some (new_node own nid))
      × (available nid ms ≡ false)
      × (find_node other ms ≡ find_node other ns)
      × (available other ms ≡ available other ns)
unfolding add_node available new_node
find-add own nid other ns e h = (
  ns ++ new_node own nid ∷ [],
  rw ((==_iff own own).1 refl) refl,
  found,
  rw (available, found) refl,
  others,
  rw (available, others) refl,
)
  where
    found : find_node nid (ns ++ new_node own nid ∷ []) ≡ some (new_node own nid)
    found = find-push ns nid (new_node own nid) ∙ rw (e, (==_iff nid nid).1 refl) refl

    others : find_node other (ns ++ new_node own nid ∷ []) ≡ find_node other ns
    others =
        find-push ns other (new_node own nid)
        ∙ same (nid == other) (different nid other h) (find_node other ns)
      where
        different : (a b : ℕ) → a ≢ b → (a == b) ≡ false
        different a b k = elim (Bool-cases (a == b)) [
          | inl q ↦ absurd (k ((==_iff a b).0 q))
          | inr q ↦ q
        ]

        same :
            (b : Bool)
            → b ≡ false
            → (o : Option Node)
            → elim o [ none ↦ if b then some (new_node own nid) else none | some m ↦ some m ] ≡ o
        same b q none = rw q refl
        same b q (some m) = refl

abbrev pub all_sound : List Node → Bool
all_sound [] = true
all_sound (n ∷ ns) = if is_broken n.state then false else all_sound ns

turn_sound :
    (router : Bool) (n : Node) (answers : List (Option ℕ))
    → is_broken n.state ≡ false
    → check_node router n answers ≡ (some n, [], answers)
unfolding check_node
turn_sound router n answers e = rw e refl

-- Where no node is broken, a turn of `checkState` does nothing.
pub sound-untouched :
    (router : Bool) (ns : List Node) (answers : List (Option ℕ))
    → all_sound ns ≡ true
    → check_state router ns answers ≡ (ns, [])
unfolding check_state
sound-untouched router [] answers e = refl
sound-untouched router (n ∷ ns) answers e = elim (Bool-cases (is_broken n.state)) [
  | inl b ↦ absurd (false≢true (rw b at e))
  | inr b ↦
      ap (with_rest (check_state router ns)) (turn_sound router n answers b)
      ∙ ap (λ r. (n ∷ r.0, r.1)) (sound-untouched router ns answers (rw b at e))
]
  where
    with_rest : (List (Option ℕ) → List Node × List Effect) → Turn → List Node × List Effect
    with_rest go t = (kept t.0 (go t.2).0, t.1 ++ (go t.2).1)
