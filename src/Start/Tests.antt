-- ===== src/Start/Tests.antt =====
-- Runs of src/core/Main.cpp.
use snframe.Base.{◌≡◌, ◌↔◌, none, some, List, [], ◌∷◌}
use snframe.Start.{String, dash, letter_s, restart, get_options}
use snframe.Start.Options.{Options, get_options-Options}

-- `-s restart`.
abbrev line : List String
line = (dash ∷ letter_s ∷ []) ∷ restart ∷ []

get_options-Options_example :
    (get_options line none ≡ some (some restart)) ↔ Options line none (some restart)
get_options-Options_example = get_options-Options line none (some restart)
