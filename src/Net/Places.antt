-- ===== src/Net/Places.antt =====
-- The loops of src/core/NetManager.cpp that change one connection, as one function of the place.
use Prim.Native.Nat.{bit_and, bit_or}
use snframe.Base.{
  and_inv, ℕ, ◌≡◌, refl, Bool-cases, inl, inr, true, false, List, [], ◌∷◌, ◌++◌, ◌==◌,
  if◌then◌else◌, arith,
}
use snframe.Net.{Connection, ConnState, add_events, del_events, erase_fd}
use snframe.Net.Send.{any, has_fd}
use snframe.Net.Drop.{unarmed}
use snframe.Net.Tcp.{states}
use snframe.Net.Waiting.{sound, all_sound, unique}
use snframe.Net.Steps.{on_fd}

abbrev pub arm : ℕ → Connection → Connection
arm mask c = if bit_and c.evs mask == 0 then record c { evs = bit_or c.evs mask } else c

pub states-on_fd :
    (s : ConnState) (fd : ℕ) (cs : List Connection)
    → states s fd cs ≡ on_fd fd (λ c. record c { state = s }) cs
unfolding states on_fd
states-on_fd s fd [] = refl
states-on_fd s fd (c ∷ cs) = ground (arith, states-on_fd s fd cs)

pub add_events-on_fd :
    (fd mask : ℕ) (cs : List Connection) → (add_events fd mask cs).0 ≡ on_fd fd (arm mask) cs
unfolding add_events on_fd
add_events-on_fd fd mask [] = refl
add_events-on_fd fd mask (c ∷ cs) = ground (arith, add_events-on_fd fd mask cs)

pub del_events-on_fd :
    (fd mask : ℕ) (cs : List Connection) → (del_events fd mask cs).0 ≡ on_fd fd (unarmed mask) cs
unfolding del_events on_fd
del_events-on_fd fd mask [] = refl
del_events-on_fd fd mask (c ∷ cs) = ground (arith, del_events-on_fd fd mask cs)

pub on_fd-on_fd :
    (fd : ℕ) (f g : Connection → Connection) (cs : List Connection)
    → ((c : Connection) → (g c).fd ≡ c.fd)
    → on_fd fd f (on_fd fd g cs) ≡ on_fd fd (λ c. f (g c)) cs
unfolding on_fd
on_fd-on_fd fd f g [] keeps = refl
on_fd-on_fd fd f g (c ∷ cs) keeps = ground (arith, keeps c, on_fd-on_fd fd f g cs keeps)

pub on_fd-first :
    (f : Connection → Connection) (before : List Connection) (c : Connection)
    (after : List Connection)
    → any (has_fd c.fd) before ≡ false
    → on_fd c.fd f (before ++ c ∷ after) ≡ before ++ f c ∷ after
unfolding on_fd
on_fd-first f [] c after h = ground arith
on_fd-first f (b ∷ before) c after h = ground (arith, on_fd-first f before c after)

pub on_fd-none :
    (fd : ℕ) (f : Connection → Connection) (cs : List Connection)
    → any (has_fd fd) cs ≡ false
    → on_fd fd f cs ≡ cs
unfolding on_fd
on_fd-none fd f [] h = refl
on_fd-none fd f (c ∷ cs) h = ground (arith, on_fd-none fd f cs)

pub on_fd-sound :
    (fd : ℕ) (f : Connection → Connection) (cs : List Connection)
    → ((c : Connection) → sound c ≡ true → sound (f c) ≡ true)
    → all_sound cs ≡ true
    → all_sound (on_fd fd f cs) ≡ true
unfolding on_fd
on_fd-sound fd f [] keeps h = refl
on_fd-sound fd f (c ∷ cs) keeps h = elim (Bool-cases (c.fd == fd)) [
  | inl here ↦ rw here (let (a, b) = and_inv (sound c) (all_sound cs) h in rw (keeps c a) b)
  | inr other ↦
      rw other
        (let (a, b) = and_inv (sound c) (all_sound cs) h in rw a (on_fd-sound fd f cs keeps b))
]

any-on_fd :
    (x fd : ℕ) (f : Connection → Connection) (cs : List Connection)
    → ((c : Connection) → (f c).fd ≡ c.fd)
    → any (has_fd x) (on_fd fd f cs) ≡ any (has_fd x) cs
unfolding on_fd
any-on_fd x fd f [] keeps = refl
any-on_fd x fd f (c ∷ cs) keeps = ground (arith, keeps c, any-on_fd x fd f cs keeps)

pub unique-on_fd :
    (fd : ℕ) (f : Connection → Connection) (cs : List Connection)
    → ((c : Connection) → (f c).fd ≡ c.fd)
    → unique cs ≡ true
    → unique (on_fd fd f cs) ≡ true
unfolding on_fd
unique-on_fd fd f [] keeps h = refl
unique-on_fd fd f (c ∷ cs) keeps h =
    ground (arith, keeps c, unique-on_fd fd f cs keeps, any-on_fd c.fd fd f cs keeps)

any-erase :
    (x fd : ℕ) (cs : List Connection)
    → any (has_fd x) cs ≡ false
    → any (has_fd x) (erase_fd fd cs) ≡ false
unfolding erase_fd
any-erase x fd [] h = refl
any-erase x fd (c ∷ cs) h = ground (arith, any-erase x fd cs)

pub erase_fd_sound :
    (fd : ℕ) (cs : List Connection) → all_sound cs ≡ true → all_sound (erase_fd fd cs) ≡ true
unfolding erase_fd
erase_fd_sound fd [] h = refl
erase_fd_sound fd (c ∷ cs) h =
    let (a, b) = and_inv (sound c) (all_sound cs) h in
    elim (Bool-cases (c.fd == fd)) [
      | inl here ↦ rw here b
      | inr other ↦ rw (other, a) (erase_fd_sound fd cs b)
    ]

pub unique-erase :
    (fd : ℕ) (cs : List Connection) → unique cs ≡ true → unique (erase_fd fd cs) ≡ true
unfolding erase_fd
unique-erase fd [] h = refl
unique-erase fd (c ∷ cs) h = ground (arith, unique-erase fd cs, any-erase c.fd fd cs)
