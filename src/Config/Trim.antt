-- ===== src/Config/Trim.antt =====
-- What `_TrimSpace` and `_ParseLine` of src/base/ConfigFileReader.cpp make of padded text.
use snframe.Base.{
  ℕ, fault, ◌≡◌, refl, Bool, true, false, ◌&&◌, not, some, [], ◌∷◌, ◌++◌, ◌==◌, ==_iff, ret, ◌>>=◌,
  arith,
}
use snframe.Config.{
  String, is_blank, is_end, is_empty, skip_start, strip_end, trim_space, cut, parse_line, insert,
  ConfigMap,
}

abbrev pub all : (ℕ → Bool) → String → Bool
all p [] = true
all p (c ∷ cs) = p c && all p cs

-- The first byte is no blank, and there is one.
abbrev pub starts_well : String → Bool
starts_well [] = false
starts_well (c ∷ cs) = not (is_blank c)

-- The last byte is none that is passed over from the end, and there is one.
abbrev pub ends_well : String → Bool
ends_well [] = false
ends_well (c ∷ []) = not (is_end c)
ends_well (c ∷ d ∷ cs) = ends_well (d ∷ cs)

and_true : (a b : Bool) → (a && b) ≡ true → (a ≡ true) × (b ≡ true)
and_true true b e = (refl, e)
and_true false b e = cc

not-true : (a : Bool) → not a ≡ true → a ≡ false
not-true true e = cc
not-true false e = refl

skip_start-pad :
    (pad text : String)
    → all is_blank pad ≡ true
    → starts_well text ≡ true
    → skip_start (pad ++ text) ≡ text
unfolding skip_start
skip_start-pad [] [] e f = cc
skip_start-pad [] (c ∷ cs) e f = rw (not-true (is_blank c) f) refl
skip_start-pad (c ∷ pad) text e f =
    let (here, later) = and_true (is_blank c) (all is_blank pad) e in
    rw here (skip_start-pad pad text later f)

strip_end-pad : (pad : String) → all is_end pad ≡ true → strip_end pad ≡ []
unfolding strip_end
strip_end-pad [] e = refl
strip_end-pad (c ∷ pad) e =
    let (here, later) = and_true (is_end c) (all is_end pad) e in
    rw (strip_end-pad pad later, here) refl

strip_end-text :
    (text pad : String)
    → ends_well text ≡ true
    → all is_end pad ≡ true
    → strip_end (text ++ pad) ≡ text
unfolding strip_end
strip_end-text [] pad e f = cc
strip_end-text (c ∷ []) pad e f = rw (strip_end-pad pad f, not-true (is_end c) e) refl
strip_end-text (c ∷ d ∷ cs) pad e f = rw (strip_end-text (d ∷ cs) pad e f) refl

-- In front of text that is kept, nothing is passed over.
strip_end-front :
    (front text : String)
    → is_empty (strip_end text) ≡ false
    → is_empty (strip_end (front ++ text)) ≡ false
unfolding strip_end
strip_end-front [] text e = e
strip_end-front (c ∷ front) text e = rw (strip_end-front front text e) refl

kept_text : (text : String) → ends_well text ≡ true → is_empty text ≡ false
kept_text [] e = cc
kept_text (c ∷ cs) e = refl

starts-pad : (text pad : String) → starts_well text ≡ true → starts_well (text ++ pad) ≡ true
starts-pad [] pad e = cc
starts-pad (c ∷ cs) pad e = e

-- Text between blanks, which neither starts with a blank nor ends with a blank, a carriage return or
-- a newline, is what `trim_space` answers; behind it any of the four may stand.
pub trim_space-pad :
    (bounded : Bool) (pad text behind : String)
    → all is_blank pad ≡ true
    → starts_well text ≡ true
    → ends_well text ≡ true
    → all is_end behind ≡ true
    → trim_space bounded (pad ++ (text ++ behind)) ≡ ret (some text)
unfolding trim_space
trim_space-pad bounded pad text behind e f g h =
    rw
      (
        skip_start-pad pad (text ++ behind) e (starts-pad text behind f),
        some_left,
        strip_end-front pad (text ++ behind)
            (rw (strip_end-text text behind g h) (kept_text text g)),
        strip_end-text text behind g h,
      )
      refl
  where
    some_left : is_empty (text ++ behind) ≡ false
    some_left = not_empty text f
      where
        not_empty : (t : String) → starts_well t ≡ true → is_empty (t ++ behind) ≡ false
        not_empty [] e = cc
        not_empty (c ∷ cs) e = refl

cut-first :
    (c : ℕ) (before behind : String)
    → all (λ x. not (x == c)) before ≡ true
    → cut c (before ++ c ∷ behind) ≡ some (before, behind)
unfolding cut
cut-first c [] behind e = rw ((==_iff c c).1 refl) refl
cut-first c (x ∷ xs) behind e =
    let (here, later) = and_true (not (x == c)) (all (λ x. not (x == c)) xs) e in
    rw (not-true (x == c) here, cut-first c xs behind later) refl

-- A line with key and value, each between blanks, and no '=' before the one that parts them: the value
-- is inserted under the key.
pub parse_line-insert :
    (pad key behind pad' value behind' : String) (m : ConfigMap)
    → all is_blank pad ≡ true
    → starts_well key ≡ true
    → ends_well key ≡ true
    → all is_end behind ≡ true
    → all (λ x. not (x == 61)) (pad ++ (key ++ behind)) ≡ true
    → all is_blank pad' ≡ true
    → starts_well value ≡ true
    → ends_well value ≡ true
    → all is_end behind' ≡ true
    → parse_line ((pad ++ (key ++ behind)) ++ 61 ∷ (pad' ++ (value ++ behind'))) m
      ≡ ret (insert key value m)
unfolding parse_line
parse_line-insert pad key behind pad' value behind' m a b c d e f g h i =
    rw
      (
        parse_line,
        cut-first 61 (pad ++ (key ++ behind)) (pad' ++ (value ++ behind')) e,
        trim_space-pad false pad key behind a b c d,
        ◌>>=◌,
        trim_space-pad true pad' value behind' f g h i,
      )
      refl

no_equals : (blank : String) → all is_end blank ≡ true → all (λ x. not (x == 61)) blank ≡ true
no_equals [] e = refl
no_equals (c ∷ cs) e =
    let (here, later) = and_true (is_end c) (all is_end cs) e in
    rw (differs c here, no_equals cs later) refl
  where
    differs : (c : ℕ) → is_end c ≡ true → not (c == 61) ≡ true
    differs c h = ground arith

-- A line that has nothing but blanks, carriage returns and newlines before its '=', and not blanks
-- alone: the search for the end of the key reads the byte in front of the buffer.
pub parse_line-fault :
    (blank behind : String) (m : ConfigMap)
    → all is_end blank ≡ true
    → is_empty (skip_start blank) ≡ false
    → parse_line (blank ++ 61 ∷ behind) m ≡ fault
unfolding parse_line trim_space
parse_line-fault blank behind m e f =
    rw (parse_line, cut-first 61 blank behind (no_equals blank e), f, strip_end-pad blank e) refl
