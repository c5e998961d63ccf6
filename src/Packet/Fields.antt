-- ===== src/Packet/Fields.antt =====
-- The packed struct CommonHeader of src/base/Common.h as the view of a block, and what the writers of
-- src/base/PbBuf.cpp do to it.
use snframe.Base.{
  ℕ, ◌^◌, ◌≤◌, ◌<◌, ◌≡◌, refl, ◌∙◌, inl, some, List, [], ◌∷◌, length, arith, if◌then◌else◌, ◌==◌,
  ret,
}
use snframe.Memory.{
  Block, byte, u16, u32, put, le16, le32, htons, htonl, htons-htons, htonl-htonl, length-put,
  byte-put_other, byte-put_self, u16-put_self, u32-put_self, poke-put, htons-lt, htonl-lt,
}
use snframe.Packet.{Msg, set_tag, set_body_head}

-- Every field as a number in host order.
pub record CommonHeader : Type 0 where
  pub flags : ℕ
  pub conn_server_id : ℕ
  pub socket_id : ℕ
  pub is_router_msg : ℕ
  pub sign : ℕ
  pub ver : ℕ
  pub msg_id : ℕ
  pub service_id : ℕ
  pub cmd_id : ℕ
  pub company_id : ℕ
  pub len : ℕ
  pub check : ℕ

unfoldable pub header : Block → CommonHeader
header xs = record {
  flags = htons (u16 xs 0);
  conn_server_id = htonl (u32 xs 2);
  socket_id = htonl (u32 xs 6);
  is_router_msg = byte xs 10;
  sign = htons (u16 xs 11);
  ver = byte xs 13;
  msg_id = htons (u16 xs 14);
  service_id = htons (u16 xs 16);
  cmd_id = htons (u16 xs 18);
  company_id = htonl (u32 xs 20);
  len = htons (u16 xs 24);
  check = byte xs 26;
}

-- One store into a header of at least 27 bytes changes one field of the view.
module _ (xs : Block) (v : ℕ) (h : 27 ≤ length xs) where
  header-put_conn :
      v < 2 ^ 32 → header (put xs 2 (le32 (htonl v))) ≡ record (header xs) { conn_server_id = v }
  unfolding header
  header-put_conn f = grind (arith, byte-put_other, u32-put_self, htonl-htonl, htonl-lt)

  header-put_socket :
      v < 2 ^ 32 → header (put xs 6 (le32 (htonl v))) ≡ record (header xs) { socket_id = v }
  unfolding header
  header-put_socket f = grind (arith, byte-put_other, u32-put_self, htonl-htonl, htonl-lt)

  header-put_ver : header (put xs 13 (v ∷ [])) ≡ record (header xs) { ver = v }
  unfolding header
  header-put_ver = grind (arith, byte-put_other, byte-put_self xs 13 (v ∷ []) 0 13 refl)

  header-put_msg_id :
      v < 2 ^ 16 → header (put xs 14 (le16 (htons v))) ≡ record (header xs) { msg_id = v }
  unfolding header
  header-put_msg_id f = grind (arith, byte-put_other, u16-put_self, htons-htons, htons-lt)

  header-put_sid :
      v < 2 ^ 16 → header (put xs 16 (le16 (htons v))) ≡ record (header xs) { service_id = v }
  unfolding header
  header-put_sid f = grind (arith, byte-put_other, u16-put_self, htons-htons, htons-lt)

  pub header-put_cid :
      v < 2 ^ 16 → header (put xs 18 (le16 (htons v))) ≡ record (header xs) { cmd_id = v }
  unfolding header
  header-put_cid f = grind (arith, byte-put_other, u16-put_self, htons-htons, htons-lt)

  pub header-put_len :
      v < 2 ^ 16 → header (put xs 24 (le16 (htons v))) ≡ record (header xs) { len = v }
  unfolding header
  header-put_len f = grind (arith, byte-put_other, u16-put_self, htons-htons, htons-lt)

  pub header-put_check : header (put xs 26 (v ∷ [])) ≡ record (header xs) { check = v }
  unfolding header
  header-put_check = grind (arith, byte-put_other, byte-put_self xs 26 (v ∷ []) 0 26 refl)

pub header-put_body : (xs : Block) (ys : List ℕ) → header (put xs 27 ys) ≡ header xs
unfolding header
header-put_body xs ys = grind (arith, byte-put_other)

module _ (xs : Block) (h : 27 ≤ length xs) where
  header-put_tag :
      header (put (put xs 0 (0x7e ∷ [])) 1 (0xaa ∷ [])) ≡ record (header xs) { flags = 0x7eaa }
  unfolding header htons
  header-put_tag =
      let first = put xs 0 (0x7e ∷ []) in
      grind (
        arith,
        byte-put_other,
        length-put,
        byte-put_self xs 0 (0x7e ∷ []) 0 0 refl,
        byte-put_self first 1 (0xaa ∷ []) 0 1 refl,
      )

  header-put_sign :
      header (put (put xs 11 (102 ∷ [])) 12 (35 ∷ [])) ≡ record (header xs) { sign = 0x6623 }
  unfolding header htons
  header-put_sign =
      let first = put xs 11 (102 ∷ []) in
      grind (
        arith,
        byte-put_other,
        length-put,
        byte-put_self xs 11 (102 ∷ []) 0 11 refl,
        byte-put_self first 12 (35 ∷ []) 0 12 refl,
      )

abbrev pub IsTagged : Block → Type 0
IsTagged xs = (byte xs 0 ≡ 0x7e) × (byte xs 1 ≡ 0xaa)

abbrev pub SameTag : Block → Block → Type 0
SameTag ys xs = (byte ys 0 ≡ byte xs 0) × (byte ys 1 ≡ byte xs 1)

abbrev pub SameBody : Block → Block → Type 0
SameBody ys xs = (j : ℕ) → 27 ≤ j → byte ys j ≡ byte xs j

-- On a block of at least 27 bytes `set_tag` succeeds: it writes the two tag bytes, the server id and
-- the socket id, for all 32-bit ids, and leaves every other header field, the body, the length of
-- the block, and the other parts of the message.
pub set_tag-header :
    (msg : Msg) (xs : Block) (srv_id sock_id : ℕ)
    → msg.m_data ≡ some xs
    → 27 ≤ length xs
    → srv_id < 2 ^ 32
    → sock_id < 2 ^ 32
    → (ys : Block) × (set_tag msg srv_id sock_id ≡ ret (record msg { m_data = some ys }))
      × (header ys
          ≡ record (header xs) { flags = 0x7eaa; conn_server_id = srv_id; socket_id = sock_id })
      × (length ys ≡ length xs)
      × SameBody ys xs
      × IsTagged ys
unfolding set_tag
set_tag-header msg xs srv_id sock_id e h f g =
    let a = put xs 0 (0x7e ∷ []) in
    let b = put a 1 (0xaa ∷ []) in
    let c = put b 2 (le32 (htonl srv_id)) in
    (
      put c 6 (le32 (htonl sock_id)),
      grind (arith, poke-put, length-put),
      grind (
        arith,
        header-put_tag xs,
        header-put_conn b srv_id,
        header-put_socket c sock_id,
        length-put,
      ),
      grind (arith, length-put),
      λ j k. grind (arith, byte-put_other),
      (
        byte-put_other c 6 (le32 (htonl sock_id)) 0 (inl (omega arith))
            ∙ byte-put_other b 2 (le32 (htonl srv_id)) 0 (inl (omega arith))
            ∙ byte-put_other a 1 (0xaa ∷ []) 0 (inl (omega arith))
            ∙ byte-put_self xs 0 (0x7e ∷ []) 0 0 (omega arith) (omega arith) (omega arith),
        byte-put_other c 6 (le32 (htonl sock_id)) 1 (inl (omega arith))
            ∙ byte-put_other b 2 (le32 (htonl srv_id)) 1 (inl (omega arith))
            ∙ byte-put_self a 1 (0xaa ∷ []) 0 1 (omega arith) (omega arith)
                (omega (arith, length-put xs 0 (0x7e ∷ []))),
      ),
    )

-- On a block of at least 27 bytes `set_body_head` succeeds: it writes the body's sign and those of
-- version, packet number, service id and command id that are not 0, and leaves every other header
-- field, the body, the length of the block, and the other parts of the message.
pub set_body_head-header :
    (msg : Msg) (xs : Block) (number sid cid version : ℕ)
    → msg.m_data ≡ some xs
    → 27 ≤ length xs
    → number < 2 ^ 16
    → sid < 2 ^ 16
    → cid < 2 ^ 16
    → (ys : Block) × (set_body_head msg number sid cid version
        ≡ ret (record msg { m_data = some ys }))
      × (header ys ≡ record (header xs) {
        sign = 0x6623;
        ver = if version == 0 then (header xs).ver else version;
        msg_id = if number == 0 then (header xs).msg_id else number;
        service_id = if sid == 0 then (header xs).service_id else sid;
        cmd_id = if cid == 0 then (header xs).cmd_id else cid;
      })
      × (length ys ≡ length xs)
      × SameBody ys xs
      × SameTag ys xs
unfolding set_body_head
set_body_head-header msg xs number sid cid version e h f g k =
    let a = put xs 11 (102 ∷ []) in
    let b = put a 12 (35 ∷ []) in
    let c : Block = (if version == 0 then b else put b 13 (version ∷ [])) in
    let d : Block = (if number == 0 then c else put c 14 (le16 (htons number))) in
    let s : Block = (if sid == 0 then d else put d 16 (le16 (htons sid))) in
    (
      (if cid == 0 then s else put s 18 (le16 (htons cid))),
      grind (arith, poke-put, length-put),
      grind (
        arith,
        header-put_sign xs,
        header-put_ver b version,
        header-put_msg_id c number,
        header-put_sid d sid,
        header-put_cid s cid,
        length-put,
      ),
      grind (arith, length-put),
      λ j l. grind (arith, byte-put_other),
      (grind (arith, byte-put_other), grind (arith, byte-put_other)),
    )

-- The view reads the first 27 bytes.
pub header-cong :
    (ys xs : Block) → ((j : ℕ) → j < 27 → byte ys j ≡ byte xs j) → header ys ≡ header xs
unfolding header
header-cong ys xs h = grind arith
