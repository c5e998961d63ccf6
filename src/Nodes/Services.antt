-- ===== src/Nodes/Services.antt =====
-- The words that `NodeMgr::init` of src/core/NodeMgr.cpp cuts a configured value into, and its table of
-- services.
use mathlib.Core.List.{append_assoc, append-nil}
use snframe.Base.{
  ℕ, zero, suc, ◌≤◌, ◌≡◌, refl, ap, ◌∙◌, Bool, true, false, not, ◌&&◌, ◌||◌, none, some, List, [],
  ◌∷◌, ◌++◌, length, replicate, ◌==◌, ==_iff, ret, arith,
}
use snframe.Decimal.{atoi}
use snframe.Protocol.{ProtocolIds}
use snframe.Nodes.{Node}
use snframe.Nodes.Manager.{Services, get_service_node, on_service}
use snframe.Nodes.Start.{
  String, is_service, split_from, split_types, Table, table_get, set_entries, with_entries,
}

-- No blank in it.
abbrev pub solid : String → Bool
solid [] = true
solid (c ∷ cs) = not (c == 32) && solid cs

-- A word: at least one byte, no blank.
abbrev pub word : String → Bool
word [] = false
word (c ∷ cs) = solid (c ∷ cs)

abbrev pub blanks : ℕ → String
blanks n = replicate n 32

-- Words with one blank or more in front of each.
abbrev pub spaced : List (ℕ × String) → String
spaced [] = []
spaced ((n, w) ∷ rest) = 32 ∷ (blanks n ++ (w ++ spaced rest))

abbrev pub words : List (ℕ × String) → List String
words [] = []
words ((n, w) ∷ rest) = w ∷ words rest

abbrev pub all_words : List (ℕ × String) → Bool
all_words [] = true
all_words ((n, w) ∷ rest) = word w && all_words rest

skip-blanks :
    (room n : ℕ) (cs : List ℕ) → split_from room (blanks n ++ cs) none ≡ split_from room cs none
unfolding split_from
skip-blanks room zero cs = refl
skip-blanks room (suc n) cs = skip-blanks room n cs

word_starts :
    (room c : ℕ) (cs : List ℕ)
    → (c == 32) ≡ false
    → split_from room (c ∷ cs) none ≡ split_from room cs (some (c ∷ []))
unfolding split_from
word_starts room c cs h = rw h refl

-- The string at the last pointer grows by a word.
word-grows :
    (room : ℕ) (w cs cur : String)
    → solid w ≡ true
    → split_from (suc room) (w ++ cs) (some cur) ≡ split_from (suc room) cs (some (cur ++ w))
unfolding split_from
word-grows room [] cs cur h = rw append-nil
word-grows room (c ∷ w) cs cur h =
    let (here, rest) = not_blank c w h in
    rw here (
      word-grows room w cs (cur ++ c ∷ []) rest
      ∙ ap (λ xs. split_from (suc room) cs (some xs)) (append_assoc cur (c ∷ []) w))
  where
    not_blank : (d : ℕ) (v : String) → solid (d ∷ v) ≡ true → ((d == 32) ≡ false) × (solid v ≡ true)
    not_blank d v k = ground arith

-- A string that grows by a word, and the words behind it.
split_from-words :
    (rest : List (ℕ × String)) (room : ℕ) (w cur : String)
    → length rest ≤ room
    → solid w ≡ true
    → all_words rest ≡ true
    → split_from room (w ++ spaced rest) (some cur) ≡ ret ((cur ++ w) ∷ words rest)
unfolding split_from
split_from-words [] zero [] cur h s k = rw append-nil refl
split_from-words [] zero (c ∷ w) cur h s k = rw append-nil refl
split_from-words [] (suc room) w cur h s k = word-grows room w [] cur s
split_from-words ((n, []) ∷ rest) room w cur h s k = cc
split_from-words ((n, x ∷ xs) ∷ rest) zero w cur h s k = absurd (omega arith)
split_from-words ((n, x ∷ xs) ∷ rest) (suc room) w cur h s k =
    let (here, behind, more) = first_word x xs rest k in
    word-grows room w (spaced ((n, x ∷ xs) ∷ rest)) cur s
    ∙ rw
        (
          skip-blanks room n,
          word_starts room x (xs ++ spaced rest) here,
          split_from-words rest room xs (x ∷ []) (omega arith) behind more,
        )
        refl
  where
    first_word :
        (y : ℕ) (ys : String) (others : List (ℕ × String))
        → (word (y ∷ ys) && all_words others) ≡ true
        → ((y == 32) ≡ false) × (solid ys ≡ true) × (all_words others ≡ true)
    first_word y ys others e = ground arith

word-solid : (v : String) → word v ≡ true → solid v ≡ true
word-solid [] e = refl
word-solid (c ∷ v) e = e

pub split_types-words :
    (w : String) (rest : List (ℕ × String))
    → word w ≡ true
    → all_words rest ≡ true
    → length rest ≤ 99
    → split_types (w ++ spaced rest) ≡ ret (w ∷ words rest)
unfolding split_types
split_types-words w rest s k h = split_from-words rest 99 w [] h (word-solid w s) k

-- All of these numbers are services.
abbrev pub known : ProtocolIds → List String → Bool
known ids [] = true
known ids (type ∷ types) = is_service ids (atoi type) && known ids types

abbrev pub listed : ℕ → List String → Bool
listed sid [] = false
listed sid (type ∷ types) = atoi type == sid || listed sid types

-- The services of these numbers, without nodes.
abbrev pub plain : List String → Services
plain [] = []
plain (type ∷ types) = (atoi type, []) ∷ plain types

-- A table in which every entry is set.
abbrev pub all_set : Services → Table
all_set [] = []
all_set (s ∷ ss) = some s ∷ all_set ss

pub all_set-append : (xs ys : Services) → all_set (xs ++ ys) ≡ all_set xs ++ all_set ys
all_set-append [] ys = refl
all_set-append (x ∷ xs) ys = ap (◌∷◌ (some x)) (all_set-append xs ys)

pub set_entries-all : (ss : Services) → set_entries (all_set ss) ≡ ss
unfolding set_entries
set_entries-all [] = refl
set_entries-all (s ∷ ss) = ap (◌∷◌ s) (set_entries-all ss)

pub with_entries-all :
    (xs : Services) (a b : ℕ × List Node)
    → with_entries (all_set (xs ++ a ∷ [])) (xs ++ b ∷ []) ≡ all_set (xs ++ b ∷ [])
unfolding with_entries
with_entries-all [] a b = refl
with_entries-all (x ∷ xs) a b = ap (◌∷◌ (some x)) (with_entries-all xs a b)

-- The last service is the first with its id.
module _ (sid : ℕ) (ns : List Node) where
  pub on_service-last :
      (f : List Node → List Node) (types : List String)
      → listed sid types ≡ false
      → on_service sid f (plain types ++ (sid, ns) ∷ []) ≡ plain types ++ (sid, f ns) ∷ []
  unfolding on_service
  on_service-last f [] h = rw ((==_iff sid sid).1 refl) refl
  on_service-last f (type ∷ types) h = ground (arith, on_service-last f types)

  pub get_service_node-last :
      (types : List String)
      → listed sid types ≡ false
      → get_service_node sid (plain types ++ (sid, ns) ∷ []) ≡ some ns
  unfolding get_service_node
  get_service_node-last [] h = rw ((==_iff sid sid).1 refl) refl
  get_service_node-last (type ∷ types) h = ground (arith, get_service_node-last types)

  pub table_get-last :
      (types : List String)
      → listed sid types ≡ false
      → table_get sid (all_set (plain types ++ (sid, ns) ∷ [])) ≡ ret (some ns)
  unfolding table_get
  table_get-last [] h = rw ((==_iff sid sid).1 refl) refl
  table_get-last (type ∷ types) h = ground (arith, table_get-last types)
