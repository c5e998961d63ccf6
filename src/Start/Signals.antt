-- ===== src/Start/Signals.antt =====
-- What a signal on the command line makes `main` of src/core/Main.cpp do.
use snframe.Base.{
  ◌≡◌, Bool, Bool-cases, inl, inr, ◌||◌, true, ◌&&◌, none, some, List, [], ◌∷◌, if◌then◌else◌,
  arith,
}
use snframe.Config.{same}
use snframe.Start.{
  String, stop, restart, get_options, Answers, kills_pid, handler_signal, serve_as, main,
}

-- The configuration is read and has a pid file, and the command line has a signal. With `stop` and
-- `restart`, `main` kills the process of the pid file, and it starts a server only with `restart` and
-- only behind that: where the pid file cannot be read or the process cannot be killed, it does
-- nothing. With any other signal, `reload` too, it does nothing at all.
pub main-signals :
    (a : Answers) (args : List String) (sig : String) (daemon : Bool)
    → get_options args none ≡ some (some sig)
    → main a true args true daemon ≡ (
        if (same sig stop || same sig restart) && (a.opens && (a.reads && a.kills))
        then kills_pid ∷ (if same sig restart then serve_as a daemon else [])
        else [])
unfolding main handler_signal
main-signals a args sig daemon e = rw e (elim (Bool-cases (same sig restart)) [
  | inl r ↦ rw r (ground arith)
  | inr r ↦ rw r (ground arith)
])
