-- ===== src/Pool/Order.antt =====
-- The order in which the threads of src/core/ThreadPool.cpp handle what `addJob` is called with, in
-- every interleaving.
use mathlib.Core.List.Perm
use snframe.Base.{ℕ, ◌≡◌, refl, sym, Bool, [], arith}
use snframe.Pool.{ThreadPool}
use snframe.Pool.Steps.{
  of_thread, queue_at, Running, Step, Reach, here, next, chooses, places, takes, handles, turns,
  running,
}
use snframe.Pool.Sections.{all_below}
use snframe.Pool.Ordered.{Ordered, chooses-Ordered, places-Ordered}
use snframe.Pool.Handled.{takes-Ordered, handles-Ordered, turns-Ordered}

module _ {ℓ} {A : Type ℓ} where
  Step-Ordered : {supervised : Bool} {s t : Running A} → Step supervised s t → Ordered s → Ordered t
  Step-Ordered (chooses s p i job h) o = chooses-Ordered s p i job o h
  Step-Ordered (places s i job before after h) o = places-Ordered s i job before after o h
  Step-Ordered (takes s p i job none_held h) o = takes-Ordered s p i job o none_held h
  Step-Ordered (handles s i job before after h) o = handles-Ordered s i job before after o h
  Step-Ordered (turns s temp on) o = turns-Ordered s temp o

  -- A pool whose queues are empty runs, with the thread of `run()` or without it: in every interleaving
  -- of the callers of `addJob` and of the threads, each thread handles the jobs that it was given in the
  -- order in which they were put into its queue, and it holds at most one; no job is lost, and none is
  -- handled twice.
  pub Reach-Ordered :
      (supervised : Bool) (p : ThreadPool A)
      → ((i : ℕ) → queue_at i p.threads ≡ [])
      → (s : Running A) → Reach supervised (running p) s
      → Ordered s
  unfolding running of_thread all_below
  Reach-Ordered supervised p empty s here = record {
    in_order = λ i. sym (empty i);
    one = λ i. omega arith;
    none_lost = Perm.refl [];
    chosen = refl;
  }
  Reach-Ordered supervised p empty s (next r step) =
      Step-Ordered step (Reach-Ordered supervised p empty _ r)
