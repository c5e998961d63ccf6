-- ===== src/Start.antt =====
-- The start of the process, src/core/Main.cpp: its options, the signal to a running process, and what
-- `main` then does. A C string is the list of its bytes before the 0. What the operating system answers
-- is an argument.
pub mod Options
pub mod Signals
mod Tests
use snframe.Base.{
  ℕ, Bool, true, false, ◌&&◌, ◌||◌, not, Option, none, some, List, [], ◌∷◌, ◌++◌, ◌==◌,
  if◌then◌else◌,
}
use snframe.Config.{same}

abbrev pub String : Type 0
String = List ℕ

abbrev pub dash : ℕ
dash = 45

abbrev pub letter_s : ℕ
letter_s = 115

abbrev pub stop : String
stop = 115 ∷ 116 ∷ 111 ∷ 112 ∷ []

abbrev pub reload : String
reload = 114 ∷ 101 ∷ 108 ∷ 111 ∷ 97 ∷ 100 ∷ []

abbrev pub restart : String
restart = 114 ∷ 101 ∷ 115 ∷ 116 ∷ 97 ∷ 114 ∷ 116 ∷ []

abbrev pub is_signal : String → Bool
is_signal v = same v stop || (same v reload || same v restart)

-- `get_options` over the arguments behind the program's name; the second argument is `im_signal`.
-- `none` is the answer IM_ERR.
unfoldable pub get_options : List String → Option String → Option (Option String)
get_options [] im_signal = some im_signal
get_options ([] ∷ args) im_signal = none
get_options ((c ∷ []) ∷ args) im_signal = if c == dash then get_options args im_signal else none
get_options ((c ∷ d ∷ []) ∷ []) im_signal = none
get_options ((c ∷ d ∷ []) ∷ value ∷ args) im_signal =
    if c == dash && (d == letter_s && is_signal value) then get_options args (some value) else none
get_options ((c ∷ d ∷ e ∷ es) ∷ args) im_signal =
    if c == dash && (d == letter_s && is_signal (e ∷ es))
    then get_options args (some (e ∷ es))
    else none

-- What the system answers: whether the pid file can be opened and read, and whether kill, the fork
-- with what follows it in `daemon`, and the initialisation of the server succeed. `parent` is whether
-- fork answers to the parent, which exits.
pub record Answers : Type 0 where
  pub opens : Bool
  pub reads : Bool
  pub kills : Bool
  pub parent : Bool
  pub daemonized : Bool
  pub initialized : Bool

pub data Action : Type 0 where
  kills_pid : Action
  becomes_daemon : Action
  starts_server : Action

-- Whether the answer is IM_OK, and whether the process of the pid file is killed.
unfoldable pub handler_signal : Answers → String → Bool × List Action
handler_signal a im_signal =
    if not (a.opens && a.reads)
    then (false, [])
    else if same im_signal stop || same im_signal restart
    then (if a.kills then (true, kills_pid ∷ []) else (false, []))
    else (true, [])

-- From the initialisation of the server on.
abbrev pub serve : Answers → List Action
serve a = if a.initialized then starts_server ∷ [] else []

-- `daemon` is called if the configuration says so.
abbrev pub serve_as : Answers → Bool → List Action
serve_as a daemon =
    if daemon
    then (if a.parent || not a.daemonized then [] else becomes_daemon ∷ serve a)
    else serve a

-- `main`, on a system that is not Windows: whether the configuration is read, the arguments, and
-- whether it has a pid file and wants a daemon.
unfoldable pub main : Answers → Bool → List String → Bool → Bool → List Action
main a configured args pid_file daemon =
    if not configured then [] else elim (get_options args none) [
      | none ↦ []
      | some im_signal ↦ if not pid_file then [] else elim im_signal [
        | none ↦ serve_as a daemon
        | some sig ↦
            let (done, actions) = handler_signal a sig in
            if not done then [] else actions ++ (if same sig restart then serve_as a daemon else [])
      ]
    ]
