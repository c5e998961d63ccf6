-- ===== src/Config/Values.antt =====
-- The map of values of src/base/ConfigFileReader.cpp.
use snframe.Base.{
  ◌≡◌, ◌≢◌, refl, Bool-cases, Option-cases, inl, inr, true, false, none, some, [], ◌∷◌, ◌==◌,
  ==_iff,
}
use mathlib.Core.Bool.{false≢true}
use snframe.Config.{
  String, ConfigMap, ConfigFileReader, same, find, insert, assign_value, get_config_name,
  set_config_value,
}

same_refl : (xs : String) → same xs xs ≡ true
same_refl [] = refl
same_refl (x ∷ xs) = rw ((==_iff x x).1 refl, same_refl xs) refl

same→≡ : (xs ys : String) → same xs ys ≡ true → xs ≡ ys
same→≡ [] [] e = refl
same→≡ [] (y ∷ ys) e = cc
same→≡ (x ∷ xs) [] e = cc
same→≡ (x ∷ xs) (y ∷ ys) e = elim (Bool-cases (x == y)) [
  | inl here ↦
      let tail : same xs ys ≡ true = rw here at e in
      let head : x ≡ y = (==_iff x y).0 here in rw (head, same→≡ xs ys tail) refl
  | inr other ↦ absurd (false≢true (rw other at e))
]

other_name : (xs ys : String) → xs ≢ ys → same xs ys ≡ false
other_name xs ys h = elim (Bool-cases (same xs ys)) [
  | inl e ↦ absurd (h (same→≡ xs ys e))
  | inr e ↦ e
]

find-assign_self :
    (name value old : String) (m : ConfigMap)
    → find name m ≡ some old
    → find name (assign_value name value m) ≡ some value
unfolding find assign_value
find-assign_self name value old [] e = cc
find-assign_self name value old ((key, v) ∷ m) e = elim (Bool-cases (same key name)) [
  | inl here ↦ rw (here, here) refl
  | inr other ↦ rw (other, other) (find-assign_self name value old m (rw other at e))
]

find-assign_other :
    (name value other : String) (m : ConfigMap)
    → name ≢ other
    → find other (assign_value name value m) ≡ find other m
unfolding find assign_value
find-assign_other name value other [] h = refl
find-assign_other name value other ((key, v) ∷ m) h = elim (Bool-cases (same key name)) [
  | inl here ↦
      let e : same key other ≡ false = rw (same→≡ key name here) (other_name name other h) in
      rw (here, e) refl
  | inr elsewhere ↦ rw (elsewhere, find-assign_other name value other m h) refl
]

-- Once a file is loaded, `set_config_value` answers 0, and the name has the new value then, whether it
-- had one before or not, and any other name the value it had.
pub get-set :
    (r : ConfigFileReader) (name value other : String)
    → r.load_ok ≡ true
    → name ≢ other
    → (q : ConfigFileReader) × (set_config_value name value r ≡ (q, true))
      × (get_config_name name q ≡ some value)
      × (get_config_name other q ≡ get_config_name other r)
unfolding set_config_value get_config_name insert find
get-set r name value other ok h = elim (Option-cases (find name r.config_map)) [
  | inl e ↦ (
    record r { config_map = (name, value) ∷ r.config_map },
    simp (set_config_value, ok, e, insert),
    simp (ok, same_refl name),
    simp (ok, other_name name other h),
  )
  | inr (old, e) ↦ (
    record r { config_map = assign_value name value r.config_map },
    simp (set_config_value, ok, e),
    rw ok (find-assign_self name value old r.config_map e),
    rw ok (find-assign_other name value other r.config_map h),
  )
]

-- Before a file is loaded no name has a value, and none can be set.
pub unloaded :
    (r : ConfigFileReader) (name value : String)
    → r.load_ok ≡ false
    → (get_config_name name r ≡ none) × (set_config_value name value r ≡ (r, false))
unfolding set_config_value get_config_name
unloaded r name value e = (simp e, simp (set_config_value, e))

-- A value that a line of the file inserts is found under its name, unless an earlier line has given
-- the name a value: that one stays. Other names are not touched.
pub find-insert :
    (name value other : String) (m : ConfigMap)
    → name ≢ other
    → (find name (insert name value m)
        ≡ elim (find name m) [ none ↦ some value | some old ↦ some old ])
      × (find other (insert name value m) ≡ find other m)
unfolding insert find
find-insert name value other m h = elim (Option-cases (find name m)) [
  | inl e ↦ (rw (insert, e, same_refl name) refl, rw (insert, e, other_name name other h) refl)
  | inr (old, e) ↦ (rw (insert, e, e) refl, rw (insert, e) refl)
]
