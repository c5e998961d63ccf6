-- ===== src/Packet/Readers.antt =====
-- The readers of src/base/PbBuf.cpp against the view of the header, and `new_head`.
use snframe.Base.{
  ℕ, zero, suc, [], ◌∷◌, ltb, ◌+◌, ◌*◌, ◌^◌, ◌≤◌, ◌<◌, ◌≡◌, ◌∙◌, Bool, true, false, some, length,
  take, replicate, length-take, length-replicate, get_or-take, arith, if◌then◌else◌, ret,
}
use snframe.Memory.{
  Block, byte, put, le16, htons, htonl, length-put, byte-put_self, peek16-u16, peek32-u32,
  peek8-byte, poke-put, slice,
}
use snframe.Packet.{Msg, null_msg, new_head, bufalloc}
use snframe.Packet.Header.{
  get_company_id, get_packge_number, get_data_len, get_protocl, get_sid, get_cmd, get_msg_id,
  get_version, get_srv_id, get_socket_id,
}
use snframe.Packet.Fields.{header, header-put_cid, header-cong}

-- A block of bytes in the proper sense.
abbrev pub IsBytes : Block → Type 0
IsBytes xs = (i : ℕ) → byte xs i < 256

module _ (msg : Msg) (xs : Block) (e : msg.m_data ≡ some xs) where
  -- On a block of at least 27 bytes every reader answers the field of the view that it is named for,
  -- and none leaves the block. `get_packge_number`, which reads two bytes too many, answers the
  -- message id, and `get_protocl` the service id over the command id.
  pub readers-header :
      27 ≤ length xs
      → IsBytes xs
      → (get_srv_id msg ≡ ret (header xs).conn_server_id)
        × (get_socket_id msg ≡ ret (header xs).socket_id)
        × (get_version msg ≡ ret (header xs).ver)
        × (get_msg_id msg ≡ ret (header xs).msg_id)
        × (get_packge_number msg ≡ ret (header xs).msg_id)
        × (get_sid msg ≡ ret (header xs).service_id)
        × (get_cmd msg ≡ ret (header xs).cmd_id)
        × (get_protocl msg ≡ ret ((header xs).service_id * 2 ^ 16 + (header xs).cmd_id))
        × (get_company_id msg ≡ ret (header xs).company_id)
        × (get_data_len msg ≡ ret (header xs).len)
  unfolding header htons htonl get_srv_id get_socket_id get_version get_msg_id get_packge_number
      get_sid get_cmd get_protocl get_company_id get_data_len
  readers-header h b = (
    rw (e, peek32-u32 xs 2 (omega arith)),
    rw (e, peek32-u32 xs 6 (omega arith)),
    rw (e, peek8-byte xs 13 (omega arith)),
    rw (e, peek16-u16 xs 14 (omega arith)),
    rw (e, peek32-u32 xs 14 (omega arith)) (ground (arith, b 14, b 15, b 16, b 17)),
    rw (e, peek16-u16 xs 16 (omega arith)),
    rw (e, peek16-u16 xs 18 (omega arith)),
    rw (e, peek32-u32 xs 16 (omega arith)) (ground (arith, b 16, b 17, b 18, b 19)),
    rw (e, peek32-u32 xs 20 (omega arith)),
    rw (e, peek16-u16 xs 24 (omega arith)),
  )

header-copy :
    (blank xs : Block)
    → 27 ≤ length blank
    → 27 ≤ length xs
    → header (put blank 0 (take 27 xs)) ≡ header xs
header-copy blank xs h f = header-cong (put blank 0 (take 27 xs)) xs λ j k.
    byte-put_self blank 0 (take 27 xs) j j (omega arith) (omega (arith, length-take 27 xs))
      (omega (arith, length-take 27 xs))
    ∙ get_or-take xs 27 j 0 k

-- A block of at least 27 bytes behind a granted `bufalloc`: the header of `src` is copied with
-- `cid` for its command id, the rest of the new block is `body_len` zeros, and `m_len` is 0.
-- A refused allocation answers false and leaves a NULL message.
pub new_head-header :
    (granted : Bool) (src : Msg) (xs : Block) (cid body_len : ℕ)
    → src.m_data ≡ some xs
    → 27 ≤ length xs
    → cid < 2 ^ 16
    → body_len + 27 < 2 ^ 31
    → (ys : Block) × (new_head granted src cid body_len
        ≡ ret (
            if granted
            then (record { m_data = some ys; m_len = 0; m_alloc = body_len + 27 }, true)
            else (null_msg, false)))
      × (header ys ≡ record (header xs) { cmd_id = cid })
      × (length ys ≡ body_len + 27)
unfolding new_head bufalloc slice
new_head-header granted src xs cid body_len e h f g =
    let blank : Block = replicate (body_len + 27) 0 in
    let size : length blank ≡ body_len + 27 = length-replicate (body_len + 27) 0 in
    let a = put blank 0 (take 27 xs) in
    let b = put a 18 (le16 (htons cid)) in
    (
      b,
      ground (
        arith,
        size,
        length-take 27 xs,
        poke-put blank 0 (take 27 xs),
        poke-put a 18 (le16 (htons cid)),
        length-put blank 0 (take 27 xs),
      ),
      rw (
        header-put_cid a cid (omega (arith, size, length-put blank 0 (take 27 xs))) f,
        header-copy blank xs (omega (arith, size)) h,
      ),
      omega (arith, size, length-put a 18 (le16 (htons cid)), length-put blank 0 (take 27 xs)),
    )

-- A test for it.
abbrev pub all_bytes : Block → Bool
all_bytes [] = true
all_bytes (x ∷ xs) = if ltb x 256 then all_bytes xs else false

pub all_bytes-IsBytes : (xs : Block) → all_bytes xs ≡ true → IsBytes xs
all_bytes-IsBytes [] e i = omega arith
all_bytes-IsBytes (x ∷ xs) e zero = ground arith
all_bytes-IsBytes (x ∷ xs) e (suc i) = all_bytes-IsBytes xs (tail x e) i
  where
    tail : (x : ℕ) → all_bytes (x ∷ xs) ≡ true → all_bytes xs ≡ true
    tail x e = ground arith
