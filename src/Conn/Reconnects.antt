-- ===== src/Conn/Reconnects.antt =====
-- The messages that wait on a connection of src/core/Connection.cpp while it is made again.
use mathlib.Core.List.{append_assoc, append-nil}
use snframe.Base.{
  ℕ, ◌≡◌, refl, sym, ap, ◌∙◌, true, Option, none, some, List, [], ◌∷◌, ◌++◌, length, length-set,
  ◌<◌, set-same, set-set, set-append, set_last, get_elem?-append, get_elem?_last, get_elem?,
  get_elem?-set_self, get_elem?-lt, set, replicate, arith, Outcome, ret, ◌>>=◌,
}
use snframe.Packet.{Msg}
use snframe.Conn.{push}
use snframe.Conn.Cache.{
  Store, Holder, find_queue, delete_queue, construct, destruct, push_queue, set_cache, take_over,
}

-- The messages that come in, in order.
abbrev pub push_all : List Msg → Holder → Store → Outcome Store
push_all [] conn store = ret store
push_all (msg ∷ msgs) conn store = push_queue msg conn store >>= push_all msgs conn

-- Messages come in, and the connection is made again, and so on.
abbrev pub reconnects : List (List Msg) → Holder → Store → Outcome (Store × Holder)
reconnects [] conn store = ret (store, conn)
reconnects (msgs ∷ rounds) conn store =
    push_all msgs conn store >>= λ s. take_over conn s >>= λ (t, next). reconnects rounds next t

abbrev pub concat : List (List Msg) → List Msg
concat [] = []
concat (msgs ∷ rounds) = msgs ++ concat rounds

-- Who holds the queue after at least one new connection.
abbrev pub holder_of : ℕ → Holder
holder_of i = record { out_buffer = i; cache = true; finish = true }

abbrev holder_after : List (List Msg) → Holder → Holder
holder_after [] conn = conn
holder_after (msgs ∷ rounds) conn = holder_of conn.out_buffer

find_queue_lem :
    (i : ℕ) (store : Store) (q : List Msg)
    → get_elem? store i ≡ some (some q)
    → find_queue i store ≡ ret q
unfolding find_queue
find_queue_lem i store q e = rw (find_queue, e) refl

delete_queue_lem :
    (i : ℕ) (store : Store) (q : List Msg)
    → get_elem? store i ≡ some (some q)
    → delete_queue i store ≡ ret (set store i none)
unfolding delete_queue
delete_queue_lem i store q e =
    ap (λ o. o >>= λ q. ret (set store i none)) (find_queue_lem i store q e)

push_queue_lem :
    (msg : Msg) (conn : Holder) (store : Store) (q : List Msg)
    → get_elem? store conn.out_buffer ≡ some (some q)
    → push_queue msg conn store ≡ ret (set store conn.out_buffer (some (q ++ msg ∷ [])))
unfolding push_queue push
push_queue_lem msg conn store q e =
    ap (λ o. o >>= λ q. ret (set store conn.out_buffer (some (q ++ msg ∷ []))))
      (find_queue_lem conn.out_buffer store q e)

push_all_lem :
    (msgs : List Msg) (conn : Holder) (store : Store) (q : List Msg)
    → get_elem? store conn.out_buffer ≡ some (some q)
    → push_all msgs conn store ≡ ret (set store conn.out_buffer (some (q ++ msgs)))
push_all_lem [] conn store q e = ap ret (
    sym (
      ap (λ l. set store conn.out_buffer (some l)) (append-nil q)
      ∙ set-same store conn.out_buffer (some q) e))
push_all_lem (msg ∷ msgs) conn store q e =
    ap (λ o. o >>= push_all msgs conn) (push_queue_lem msg conn store q e)
    ∙ push_all_lem msgs conn (set store conn.out_buffer (some (q ++ msg ∷ []))) (q ++ msg ∷ [])
        (get_elem?-set_self store conn.out_buffer _ (get_elem?-lt store conn.out_buffer (some q) e))
    ∙ ap ret (
        set-set store conn.out_buffer _ _
        ∙ ap (λ l. set store conn.out_buffer (some l)) (append_assoc q (msg ∷ []) msgs))

-- The queue of the new connection is deleted, and that of the old one is not.
take_over_lem :
    (conn : Holder) (store : Store)
    → take_over conn store ≡ ret (store ++ none ∷ [], holder_of conn.out_buffer)
unfolding take_over construct set_cache destruct
take_over_lem conn store =
    ap
      (λ o. (o >>= λ s. ret (s, holder_of conn.out_buffer)) >>= λ (s, taken).
        ret s >>= λ closed. ret (closed, taken))
      (delete_queue_lem (length store) (store ++ some [] ∷ []) [] (get_elem?_last store (some []))
        ∙ ap ret (set_last store (some []) none))

-- One queue with the messages, and a deleted one for each new connection.
abbrev left_over : ℕ → Option (List Msg) → List (List Msg) → Store → Store
left_over i cell rounds store = set store i cell ++ replicate (length rounds) none

holder_after_of :
    (rounds : List (List Msg)) (i : ℕ) → holder_after rounds (holder_of i) ≡ holder_of i
holder_after_of [] i = refl
holder_after_of (msgs ∷ rounds) i = refl

reconnects_lem :
    (rounds : List (List Msg)) (conn : Holder) (store : Store) (q : List Msg)
    → get_elem? store conn.out_buffer ≡ some (some q)
    → reconnects rounds conn store
      ≡ ret (
        left_over conn.out_buffer (some (q ++ concat rounds)) rounds store,
        holder_after rounds conn,
      )
reconnects_lem [] conn store q e =
    ap (λ s. ret (s, conn))
      (sym (
        append-nil (set store conn.out_buffer (some (q ++ [])))
        ∙ ap (λ l. set store conn.out_buffer (some l)) (append-nil q)
        ∙ set-same store conn.out_buffer (some q) e))
reconnects_lem (msgs ∷ rounds) conn store q e =
    ap (λ o. o >>= λ s. take_over conn s >>= λ (t, next). reconnects rounds next t)
      (push_all_lem msgs conn store q e)
    ∙ ap (λ o. o >>= λ (t, next). reconnects rounds next t) (take_over_lem conn full)
    ∙ reconnects_lem rounds (holder_of i) (full ++ none ∷ []) (q ++ msgs)
        (get_elem?-append full (none ∷ []) i inside ∙ get_elem?-set_self store i _ present)
    ∙ ap ret (pair (store_eq ∙ refl) (holder_after_of rounds i))
  where
    i : ℕ
    i = conn.out_buffer

    full : Store
    full = set store i (some (q ++ msgs))

    present : i < length store
    present = get_elem?-lt store i (some q) e

    inside : i < length full
    inside = omega (arith, length-set store i (some (q ++ msgs)), present)

    pair : {s t : Store} {a b : Holder} → s ≡ t → a ≡ b → Path (Store × Holder) (s, a) (t, b)
    pair p r = cc

    store_eq :
        left_over i (some ((q ++ msgs) ++ concat rounds)) rounds (full ++ none ∷ [])
        ≡ left_over i (some (q ++ concat (msgs ∷ rounds))) (msgs ∷ rounds) store
    store_eq =
        ap (λ s. s ++ replicate (length rounds) none)
          (set-append full (none ∷ []) i (some ((q ++ msgs) ++ concat rounds)) inside)
        ∙ append_assoc (set full i (some ((q ++ msgs) ++ concat rounds))) (none ∷ [])
            (replicate (length rounds) none)
        ∙ ap (λ s. s ++ none ∷ replicate (length rounds) none)
            (set-set store i (some (q ++ msgs)) _
              ∙ ap (λ l. set store i (some l)) (append_assoc q msgs (concat rounds)))

-- A connection has the queue `q` in a store. Messages come in and the connection is made again, once or
-- more often: nothing that was deleted is used or deleted again; the last connection holds the same
-- queue, with `q` and all the messages in the order in which they came; the queue that each new
-- connection was made with is deleted, and the rest of the store is as it was. Where that connection
-- is closed then, its queue is deleted too, so that none is left over. A packet that was half sent is
-- forgotten: the last connection holds none.
pub reconnects-destruct :
    (msgs : List Msg) (rounds : List (List Msg)) (conn : Holder) (store : Store) (q : List Msg)
    → get_elem? store conn.out_buffer ≡ some (some q)
    → (last : Holder) × (s : Store) × (reconnects (msgs ∷ rounds) conn store ≡ ret (s, last))
      × (s
          ≡ set store conn.out_buffer (some (q ++ concat (msgs ∷ rounds)))
            ++ replicate (length (msgs ∷ rounds)) none)
      × (last ≡ record { out_buffer = conn.out_buffer; cache = true; finish = true })
      × (destruct last s
          ≡ ret (set store conn.out_buffer none ++ replicate (length (msgs ∷ rounds)) none))
unfolding destruct
reconnects-destruct msgs rounds conn store q e = (
  holder_of i,
  left_over i (some all) (msgs ∷ rounds) store,
  reconnects_lem (msgs ∷ rounds) conn store q e,
  refl,
  refl,
  delete_queue_lem i _ all (
        get_elem?-append (set store i (some all)) _ i inside
        ∙ get_elem?-set_self store i (some all) present)
      ∙ ap ret (
          set-append (set store i (some all)) _ i none inside
          ∙ ap (λ s. s ++ replicate (length (msgs ∷ rounds)) none)
              (set-set store i (some all) none)),
)
  where
    i : ℕ
    i = conn.out_buffer

    all : List Msg
    all = q ++ concat (msgs ∷ rounds)

    present : i < length store
    present = get_elem?-lt store i (some q) e

    inside : i < length (set store i (some all))
    inside = omega (arith, length-set store i (some all), present)
