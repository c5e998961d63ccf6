-- ===== src/Config/Tests.antt =====
-- Runs of src/base/ConfigFileReader.cpp.
use snframe.Base.{◌≡◌, ◌≢◌, refl, true, [], ◌∷◌, ◌++◌, ret}
use snframe.Config.{
  String, ConfigFileReader, trim_space, skip_start, strip_end, cut, parse_line, insert, find,
  load_lines, drop_comment, drop_newline,
}
use snframe.Config.Trim.{parse_line-insert}

-- "ip", "a.b" and "port".
abbrev ip : String
ip = 105 ∷ 112 ∷ []

abbrev host : String
host = 97 ∷ 46 ∷ 98 ∷ []

abbrev port : String
port = 112 ∷ 111 ∷ 114 ∷ 116 ∷ []

-- " ip = a.b # x" with a newline.
abbrev raw_line : String
raw_line = 32 ∷ ip ++ (32 ∷ 61 ∷ 32 ∷ host ++ (32 ∷ 35 ∷ 32 ∷ 120 ∷ 10 ∷ []))

raw_line-loaded : load_lines (raw_line ∷ []) [] ≡ ret ((ip, host) ∷ [])
unfolding load_lines parse_line trim_space skip_start strip_end cut insert find drop_comment
    drop_newline
raw_line-loaded = refl

abbrev loaded : ConfigFileReader
loaded = record { load_ok = true; config_map = (ip, host) ∷ [] }

parse_line-insert_example :
    parse_line ((32 ∷ ip ++ []) ++ 61 ∷ (9 ∷ host ++ (13 ∷ []))) [] ≡ ret (insert ip host [])
parse_line-insert_example =
    parse_line-insert (32 ∷ []) ip [] (9 ∷ []) host (13 ∷ []) [] refl refl refl refl refl refl refl
      refl refl

ip-port : ip ≢ port
ip-port e = cc
