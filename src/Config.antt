-- ===== src/Config.antt =====
-- `CConfigFileReader` of src/base/ConfigFileReader.cpp: how a line of the file is read, and the map of
-- values. A C string is the list of its bytes before the 0; `std::map` is a list of pairs. The file
-- comes as the strings that fgets answers, in a parameter.
pub mod Trim
pub mod Values
mod Tests
use snframe.Base.{
  ℕ, Bool, true, false, ◌&&◌, ◌||◌, Option, none, some, List, [], ◌∷◌, ◌++◌, ◌==◌, if◌then◌else◌,
  Outcome, ret, fault, ◌>>=◌,
}

abbrev pub String : Type 0
String = List ℕ

-- ' ' and '\t'; with '\r' and '\n' for the end.
abbrev pub is_blank : ℕ → Bool
is_blank c = c == 32 || c == 9

abbrev pub is_end : ℕ → Bool
is_end c = is_blank c || (c == 13 || c == 10)

-- `start_pos`.
unfoldable pub skip_start : String → String
skip_start [] = []
skip_start (c ∷ cs) = if is_blank c then skip_start cs else c ∷ cs

abbrev pub is_empty : String → Bool
is_empty [] = true
is_empty _ = false

-- What is in front of `end_pos`, after the loop that moves it.
unfoldable pub strip_end : String → String
strip_end [] = []
strip_end (c ∷ cs) = let rest = strip_end cs in if is_empty rest && is_end c then [] else c ∷ rest

-- `_TrimSpace`. Where all bytes are passed over from the end, the loop reads the byte in front of the
-- string; `bounded` says that there is one, the 0 that replaced '='.
unfoldable pub trim_space : Bool → String → Outcome (Option String)
trim_space bounded name =
    let start = skip_start name in
    if is_empty start
    then ret none
    else if is_empty (strip_end name)
    then (if bounded then ret none else fault)
    else ret (some (strip_end start))

-- `strchr`: what is before the first `c`, and behind it.
unfoldable pub cut : ℕ → String → Option (String × String)
cut c [] = none
cut c (x ∷ xs) =
    let rest = cut c xs in
    if x == c
    then some ([], xs)
    else elim rest [ none ↦ none | some (before, behind) ↦ some (x ∷ before, behind) ]

abbrev pub same : String → String → Bool
same [] [] = true
same [] (y ∷ ys) = false
same (x ∷ xs) [] = false
same (x ∷ xs) (y ∷ ys) = x == y && same xs ys

abbrev pub ConfigMap : Type 0
ConfigMap = List (String × String)

unfoldable pub find : String → ConfigMap → Option String
find name [] = none
find name ((key, value) ∷ m) = if same key name then some value else find name m

-- `map::insert` keeps a value that is there.
unfoldable pub insert : String → String → ConfigMap → ConfigMap
insert name value m = elim (find name m) [ none ↦ (name, value) ∷ m | some _ ↦ m ]

-- `it->second = value`.
unfoldable pub assign_value : String → String → ConfigMap → ConfigMap
assign_value name value [] = []
assign_value name value ((key, old) ∷ m) =
    if same key name then (key, value) ∷ m else (key, old) ∷ assign_value name value m

unfoldable pub parse_line : String → ConfigMap → Outcome ConfigMap
parse_line line m = elim (cut 61 line) [
  | none ↦ ret m
  | some (before, behind) ↦ trim_space false before >>= λ key. trim_space true behind >>= λ value.
      elim key [ none ↦ ret m | some k ↦ elim value [ none ↦ ret m | some v ↦ ret (insert k v m) ] ]
]

-- The line without the '\n' at its end, and without what follows '#'.
unfoldable pub drop_newline : String → String
drop_newline [] = []
drop_newline (c ∷ []) = if c == 10 then [] else c ∷ []
drop_newline (c ∷ d ∷ cs) = c ∷ drop_newline (d ∷ cs)

unfoldable pub drop_comment : String → String
drop_comment line = elim (cut 35 line) [ none ↦ line | some (before, behind) ↦ before ]

unfoldable pub load_lines : List String → ConfigMap → Outcome ConfigMap
load_lines [] m = ret m
load_lines (raw ∷ lines) m =
    let line = drop_comment (drop_newline raw) in
    let rest = parse_line line m >>= load_lines lines in
    if is_empty line then load_lines lines m else rest

pub record ConfigFileReader : Type 0 where
  pub load_ok : Bool
  pub config_map : ConfigMap

-- `_LoadFile`; `none` is a file that does not open, and `false` the answer IM_ERR.
unfoldable pub load_file :
    Option (List String) → ConfigFileReader → Outcome (ConfigFileReader × Bool)
load_file none r = ret (r, false)
load_file (some lines) r =
    load_lines lines r.config_map >>= λ m. ret (record { load_ok = true; config_map = m }, true)

unfoldable pub get_config_name : String → ConfigFileReader → Option String
get_config_name name r = if r.load_ok then find name r.config_map else none

-- The answer is `true` for 0 and `false` for -1.
unfoldable pub set_config_value : String → String → ConfigFileReader → ConfigFileReader × Bool
set_config_value name value r =
    if r.load_ok
    then (elim (find name r.config_map) [
      | none ↦ (record r { config_map = insert name value r.config_map }, true)
      | some _ ↦ (record r { config_map = assign_value name value r.config_map }, true)
    ])
    else (r, false)
