-- ===== src/Net/Waiting.antt =====
-- Which connections of src/core/NetManager.cpp wait to be writable: a well-formed list of connections.
use Prim.Native.Nat.{bit_and, bit_or}
use snframe.Base.{
  ℕ, zero, suc, ◌+◌, ◌-◌, ◌<◌, ◌≤◌, ◌≡◌, refl, ap, Bool, Bool-cases, inl, inr, true, false, not,
  ◌&&◌, ◌||◌, if◌then◌else◌, ◌⊎◌, List, [], ◌∷◌, ◌++◌, ltb, ◌==◌, arith,
}
use snframe.Packet.{Msg}
use snframe.Net.{Connection, NetManager, ae_writable, is_connected}
use snframe.Net.Send.{any, has_fd, queued, armed}
use snframe.Net.Drop.{unarmed}

abbrev pub is_nil {ℓ} : {A : Type ℓ} → List A → Bool
is_nil [] = true
is_nil (x ∷ xs) = false

abbrev pub is_armed : Connection → Bool
is_armed c = not (bit_and c.evs ae_writable == 0)

-- A connection that is connected and has messages in its queue is waited for to be writable.
abbrev pub waits : Connection → Bool
waits c = not (is_connected c.state) || (is_nil c.out_buffer || is_armed c)

-- And its events are among the three that there are.
abbrev pub sound : Connection → Bool
sound c = ltb c.evs 8 && waits c

abbrev pub all_sound : List Connection → Bool
all_sound [] = true
all_sound (c ∷ cs) = sound c && all_sound cs

-- No two connections have the same descriptor.
abbrev pub unique : List Connection → Bool
unique [] = true
unique (c ∷ cs) = not (any (has_fd c.fd) cs) && unique cs

pub record IsNet (n : NetManager) : Type 0 where
  pub sound_conns : all_sound n.conns ≡ true
  pub unique_fds : unique n.conns ≡ true

-- The numbers of a range pass a test.
passes : (ℕ → Bool) → ℕ → ℕ → Bool
passes test from zero = true
passes test from (suc more) = if test from then passes test (suc from) more else false

passes-test :
    (test : ℕ → Bool) (from count x : ℕ)
    → from ≤ x
    → x < from + count
    → passes test from count ≡ true
    → test x ≡ true
unfolding passes
passes-test test from zero x low high all = absurd (omega arith)
passes-test test from (suc more) x low high all = elim (Bool-cases (from == x)) [
  | inl same ↦ ground arith
  | inr other ↦ ground (arith, passes-test test (suc from) more x)
]

abbrev arms : ℕ → Bool
arms x = ltb (bit_or x 2) 8 && not (bit_and (bit_or x 2) 2 == 0)

arms_table : passes arms 0 8 ≡ true
unfolding passes
arms_table = refl

armed-evs : (x : ℕ) → x < 8 → arms x ≡ true
armed-evs x h = passes-test arms 0 8 x (omega arith) h arms_table

abbrev less : ℕ → Bool
less x = ltb (x - bit_and x 2) 8 && ltb (x - bit_and x 3) 8

less_table : passes less 0 8 ≡ true
unfolding passes
less_table = refl

less-evs : (x : ℕ) → x < 8 → less x ≡ true
less-evs x h = passes-test less 0 8 x (omega arith) h less_table

-- The writable event is taken away.
abbrev pub quiet : ℕ → Bool
quiet x = bit_and (x - bit_and x 2) 2 == 0

quiet_table : passes quiet 0 8 ≡ true
unfolding passes
quiet_table = refl

pub quiet-evs : (x : ℕ) → x < 8 → quiet x ≡ true
quiet-evs x h = passes-test quiet 0 8 x (omega arith) h quiet_table

-- A message is queued, and the writable event added, or there already where it is needed.
pub armed-sound : (c : Connection) (msg : Msg) → ltb c.evs 8 ≡ true → sound (armed c msg) ≡ true
armed-sound c msg h = ground (arith, armed-evs c.evs)

pub queued-sound :
    (c : Connection) (msg : Msg)
    → ltb c.evs 8 ≡ true
    → (is_connected c.state && (bit_and c.evs ae_writable == 0)) ≡ false
    → sound (queued c msg) ≡ true
queued-sound c msg h k = ground arith

-- Fewer events, and none of them needed.
pub unarmed-sound :
    (c : Connection)
    → ltb c.evs 8 ≡ true
    → (not (is_connected c.state) || is_nil c.out_buffer) ≡ true
    → (sound (unarmed 2 c) ≡ true) × (sound (unarmed 3 c) ≡ true)
unarmed-sound c h k = (
  elim (Bool-cases (bit_and c.evs 2 == 0)) [
    | inl z ↦ rw z (ground arith)
    | inr z ↦ rw z (ground (arith, less-evs c.evs))
  ],
  elim (Bool-cases (bit_and c.evs 3 == 0)) [
    | inl z ↦ rw z (ground arith)
    | inr z ↦ rw z (ground (arith, less-evs c.evs))
  ],
)

pub any-append :
    (p : Connection → Bool) (xs ys : List Connection) → any p (xs ++ ys) ≡ (any p xs || any p ys)
any-append p [] ys = refl
any-append p (x ∷ xs) ys = ground (arith, any-append p xs ys)

pub all_sound-append :
    (xs ys : List Connection) → all_sound (xs ++ ys) ≡ (all_sound xs && all_sound ys)
all_sound-append [] ys = refl
all_sound-append (x ∷ xs) ys = ground (arith, all_sound-append xs ys)

-- A connection is replaced by one with the same descriptor.
pub unique-replace :
    (before : List Connection) (c d : Connection) (after : List Connection)
    → d.fd ≡ c.fd
    → unique (before ++ c ∷ after) ≡ true
    → unique (before ++ d ∷ after) ≡ true
unique-replace [] c d after e h = rw e h
unique-replace (b ∷ before) c d after e h = ground (
  arith,
  unique-replace before c d after e,
  any-append (has_fd b.fd) before (c ∷ after),
  any-append (has_fd b.fd) before (d ∷ after),
)

-- Where the descriptors are unique, no connection before one has its descriptor.
pub unique-before :
    (before : List Connection) (c : Connection) (after : List Connection)
    → unique (before ++ c ∷ after) ≡ true
    → any (has_fd c.fd) before ≡ false
unique-before [] c after h = refl
unique-before (b ∷ before) c after h =
    ground (arith, unique-before before c after, any-append (has_fd b.fd) before (c ∷ after))

-- The first connection that is wanted.
pub record First (wanted : Connection → Bool) (cs : List Connection) : Type 0 where
  pub before : List Connection
  pub found : Connection
  pub after : List Connection
  pub splits : cs ≡ before ++ found ∷ after
  pub none_before : any wanted before ≡ false
  pub wanted_found : wanted found ≡ true

pub split_at_wanted :
    (wanted : Connection → Bool) (cs : List Connection) → (any wanted cs ≡ false) ⊎ First wanted cs
split_at_wanted wanted [] = inl refl
split_at_wanted wanted (c ∷ cs) = elim (Bool-cases (wanted c)) [
  | inl e ↦ inr (record {
    before = [];
    found = c;
    after = cs;
    splits = refl;
    none_before = refl;
    wanted_found = e;
  })
  | inr e ↦ elim (split_at_wanted wanted cs) [
    | inl none_there ↦ inl (rw e none_there)
    | inr f ↦ inr (record {
      before = c ∷ f.before;
      found = f.found;
      after = f.after;
      splits = ap (◌∷◌ c) f.splits;
      none_before = rw e f.none_before;
      wanted_found = f.wanted_found;
    })
  ]
]
