-- ===== src/Frame/Search.antt =====
-- The reads of `TcpServer::parse` of src/core/TcpServer.cpp run out of no fuel, and where its search
-- for a tag ends.
use snframe.Base.{
  ℕ, zero, suc, ◌+◌, ◌≤◌, ◌≡◌, ◌≢◌, refl, sym, Bool, true, false, List, ◌==◌, if◌then◌else◌,
  Outcome, ret, fault, stuck, ◌>>=◌, access, arith,
}
use mathlib.Core.Bool.{false≢true}
use snframe.Memory.{Block, slice, poke, peek8, peek16}
use snframe.Frame.{tag_at, find_tag}

access-runs {ℓ} : {A : Type ℓ} (b : Bool) (a : A) → access b a ≢ stuck
access-runs true a = cc
access-runs false a = cc

pub slice-runs : (b : Block) (i n : ℕ) → slice b i n ≢ stuck
unfolding slice
slice-runs b i n = access-runs _ _

pub poke-runs : (b : Block) (i : ℕ) (xs : List ℕ) → poke b i xs ≢ stuck
unfolding poke
poke-runs b i xs = access-runs _ _

peek8-runs : (b : Block) (i : ℕ) → peek8 b i ≢ stuck
unfolding peek8
peek8-runs b i = access-runs _ _

pub peek16-runs : (b : Block) (i : ℕ) → peek16 b i ≢ stuck
unfolding peek16
peek16-runs b i = access-runs _ _

pub tag_at-runs : (b : Block) (i : ℕ) → tag_at b i ≢ stuck
unfolding tag_at
tag_at-runs b i = ground (arith, peek8-runs b i, peek8-runs b (i + 1))

-- How a search from `i` with `n` places ends.
pub data Finds (b : Block) (pos i n : ℕ) : Outcome (ℕ × Bool) → Type 0 where
  finds : (j : ℕ) → i ≤ j → tag_at b (pos + j) ≡ ret true → Finds b pos i n (ret (j, true))
  misses : (j : ℕ) → j ≡ i + n → Finds b pos i n (ret (j, false))
  strays : Finds b pos i n fault

pub find_tag-Finds : (b : Block) (pos i n : ℕ) → Finds b pos i n (find_tag b pos i n)
unfolding find_tag
find_tag-Finds b pos i zero = misses i (omega arith)
find_tag-Finds b pos i (suc n) =
    step (find_tag b pos (i + 1) n) (find_tag-Finds b pos (i + 1) n) (tag_at b (pos + i)) refl
  where
    later : (o : Outcome (ℕ × Bool)) → Finds b pos (i + 1) n o → Finds b pos i (suc n) o
    later _ (finds j h t) = finds j (omega arith) t
    later _ (misses j e) = misses j (omega arith)
    later _ strays = strays

    step :
        (r : Outcome (ℕ × Bool))
        → Finds b pos (i + 1) n r
        → (o : Outcome Bool) → tag_at b (pos + i) ≡ o
        → Finds b pos i (suc n) (o >>= λ found. if found then ret (i, true) else r)
    step r k (ret true) e = finds i (omega arith) e
    step r k (ret false) e = later _ k
    step r k fault e = strays
    step r k stuck e = absurd (tag_at-runs b (pos + i) e)

pub nonzero : (n : ℕ) → (n == 0) ≡ false → 1 ≤ n
nonzero zero e = absurd (false≢true (sym e))
nonzero (suc n) e = omega arith

pub tag-ahead :
    (b : Block) (pos j : ℕ) → tag_at b pos ≡ ret false → tag_at b (pos + j) ≡ ret true → 1 ≤ j
tag-ahead b pos zero e f =
    let here : pos + 0 ≡ pos = omega arith in absurd (false≢true (cc (e, f, here)))
tag-ahead b pos (suc j) e f = omega arith
