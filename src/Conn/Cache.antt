-- ===== src/Conn/Cache.antt =====
-- Who owns the queue of a connection: the constructor and the destructor of `Connection` in
-- src/core/Connection.cpp, `setCache`, and how `ServiceNode::checkState` of src/core/ServiceNode.cpp
-- hands the queue of a broken connection on to the next one. A queue is known by its place in the
-- store, and `none` there is one that was deleted.
use snframe.Base.{
  ℕ, Bool, true, false, Option, none, some, List, [], ◌∷◌, ◌++◌, length, get_elem?, set,
  if◌then◌else◌, Outcome, ret, fault, ◌>>=◌,
}
use snframe.Packet.{Msg}
use snframe.Conn.{push}

abbrev pub Store : Type 0
Store = List (Option (List Msg))

-- The pointer, whether the connection owns what it points to, and whether no packet is half sent.
pub record Holder : Type 0 where
  pub out_buffer : ℕ
  pub cache : Bool
  pub finish : Bool

-- A use of a queue that was deleted is a fault.
unfoldable pub find_queue : ℕ → Store → Outcome (List Msg)
find_queue i store = elim (get_elem? store i) [
  | none ↦ fault
  | some cell ↦ elim cell [ none ↦ fault | some q ↦ ret q ]
]

unfoldable pub delete_queue : ℕ → Store → Outcome Store
delete_queue i store = find_queue i store >>= λ q. ret (set store i none)

-- `Connection::Connection`.
unfoldable pub construct : Store → Store × Holder
construct store =
    (store ++ some [] ∷ [], record { out_buffer = length store; cache = true; finish = true })

-- `Connection::~Connection`.
unfoldable pub destruct : Holder → Store → Outcome Store
destruct conn store = if conn.cache then delete_queue conn.out_buffer store else ret store

-- `Connection::push`.
unfoldable pub push_queue : Msg → Holder → Store → Outcome Store
push_queue msg conn store =
    find_queue conn.out_buffer store >>= λ q. ret (set store conn.out_buffer (some (push q msg)))

unfoldable pub set_cache : ℕ → Holder → Store → Outcome (Store × Holder)
set_cache cache conn store =
    delete_queue conn.out_buffer store >>= λ s. ret (s, record conn { out_buffer = cache })

-- What `checkState` does where `connect` has made a connection for a node that has an old one, which
-- is closed.
unfoldable pub take_over : Holder → Store → Outcome (Store × Holder)
take_over old_conn store =
    let (made, conn) = construct store in
    set_cache old_conn.out_buffer conn made >>= λ (s, taken).
    destruct (record old_conn { cache = false }) s >>= λ closed. ret (closed, taken)
