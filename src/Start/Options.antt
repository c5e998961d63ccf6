-- ===== src/Start/Options.antt =====
-- Which command lines `get_options` of src/core/Main.cpp takes, and what it makes of them.
use snframe.Base.{
  ℕ, ◌≡◌, refl, sym, ◌↔◌, inl, inr, Bool, Bool-cases, true, ◌&&◌, Option, none, some, List, [], ◌∷◌,
  ◌==◌, ==_iff, arith,
}
use mathlib.Core.Path.{subst}
use snframe.Start.{String, dash, letter_s, is_signal, get_options}

-- The command lines: any number of `-`, `-sSIGNAL` and `-s SIGNAL`, with a signal that there is; the
-- last one counts.
pub data Options : List String → Option String → Option String → Type 0 where
  done : (s : Option String) → Options [] s s
  bare :
      (args : List String) (s t : Option String)
      → Options args s t
      → Options ((dash ∷ []) ∷ args) s t
  apart :
      (value : String) (args : List String) (s t : Option String)
      → is_signal value ≡ true
      → Options args (some value) t
      → Options ((dash ∷ letter_s ∷ []) ∷ value ∷ args) s t
  joined :
      (e : ℕ) (es : String) (args : List String) (s t : Option String)
      → is_signal (e ∷ es) ≡ true
      → Options args (some (e ∷ es)) t
      → Options ((dash ∷ letter_s ∷ e ∷ es) ∷ args) s t

accepts :
    (args : List String) (s t : Option String) → Options args s t → get_options args s ≡ some t
unfolding get_options
accepts _ _ _ (done s) = refl
accepts _ _ _ (bare args s t o) = accepts args s t o
accepts _ _ _ (apart value args s t h o) = rw h (accepts args (some value) t o)
accepts _ _ _ (joined e es args s t h o) = rw h (accepts args (some (e ∷ es)) t o)

inj : (s t : Option String) → some s ≡ some t → s ≡ t
inj s t h = cc

three : (a b c : Bool) → (a && (b && c)) ≡ true → (a ≡ true) × (b ≡ true) × (c ≡ true)
three a b c h = ground arith

takes : (args : List String) (s t : Option String) → get_options args s ≡ some t → Options args s t
unfolding get_options
takes [] s t h = subst (Options [] s) (inj s t h) (done s)
takes ([] ∷ args) s t h = cc
takes ((c ∷ []) ∷ args) s t h = elim (Bool-cases (c == dash)) [
  | inl e ↦
      subst (λ d. Options ((d ∷ []) ∷ args) s t) (sym ((==_iff c dash).0 e))
        (bare args s t (takes args s t (rw e at h)))
  | inr e ↦ let no_way : none ≡ some t = rw e at h in cc
]
takes ((c ∷ d ∷ []) ∷ []) s t h = cc
takes ((c ∷ d ∷ []) ∷ value ∷ args) s t h =
    elim (Bool-cases (c == dash && (d == letter_s && is_signal value))) [
      | inl e ↦
          let (p, q, r) = three (c == dash) (d == letter_s) (is_signal value) e in
          subst (λ x. Options ((x ∷ d ∷ []) ∷ value ∷ args) s t) (sym ((==_iff c dash).0 p))
            (subst (λ x. Options ((dash ∷ x ∷ []) ∷ value ∷ args) s t)
              (sym ((==_iff d letter_s).0 q))
              (apart value args s t r (takes args (some value) t (rw e at h))))
      | inr e ↦ let no_way : none ≡ some t = rw e at h in cc
    ]
takes ((c ∷ d ∷ e ∷ es) ∷ args) s t h =
    elim (Bool-cases (c == dash && (d == letter_s && is_signal (e ∷ es)))) [
      | inl f ↦
          let (p, q, r) = three (c == dash) (d == letter_s) (is_signal (e ∷ es)) f in
          subst (λ x. Options ((x ∷ d ∷ e ∷ es) ∷ args) s t) (sym ((==_iff c dash).0 p))
            (subst (λ x. Options ((dash ∷ x ∷ e ∷ es) ∷ args) s t) (sym ((==_iff d letter_s).0 q))
              (joined e es args s t r (takes args (some (e ∷ es)) t (rw f at h))))
      | inr f ↦ let no_way : none ≡ some t = rw f at h in cc
    ]

-- `get_options` answers IM_OK exactly for the command lines of `Options`, and `im_signal` is then the
-- last signal that the line has, or what it was where the line has none.
pub get_options-Options :
    (args : List String) (s t : Option String) → (get_options args s ≡ some t) ↔ Options args s t
get_options-Options args s t = (takes args s t, accepts args s t)
