-- ===== src/Nodes/Init.antt =====
-- What `NodeMgr::init` of src/core/NodeMgr.cpp leaves, the registration with the router in it.
use mathlib.Core.List.{append_assoc, append-nil}
use snframe.Base.{
  ℕ, ◌+◌, ◌^◌, ◌≤◌, ◌<◌, ◌≡◌, refl, ap, sym, ◌∙◌, Bool, true, false, ◌&&◌, ◌||◌, Option, none, some,
  List, [], ◌∷◌, ◌++◌, length, take, ◌==◌, ==_iff, ret, ◌>>=◌, arith,
}
use snframe.Decimal.{atoi}
use snframe.Protocol.{ProtocolIds}
use snframe.Packet.{Msg, MessageLite}
use snframe.Packet.Body.{IsPacket}
use snframe.Nodes.{new_node}
use snframe.Nodes.Manager.{Services, on_node}
use snframe.Nodes.Request.{request_header}
use snframe.Nodes.Router.{Registration, fits_ip, registered_node, connect_router}
use snframe.Nodes.Registration.{first_some, regist_req-done}
use snframe.Nodes.Start.{
  String, is_service, create_service_node, Started, left_of_value, router_init, service_init,
  fill_table, mgr_init,
}
use snframe.Nodes.Services.{
  word, spaced, words, all_words, split_types-words, known, listed, plain, all_set, all_set-append,
  set_entries-all, with_entries-all, on_service-last, get_service_node-last, table_get-last,
}

-- The services of these words, and the router's with its node.
abbrev pub with_router : ProtocolIds → ℕ → List String → Services
with_router ids fd front =
    plain front ++ (ids.sid_router, registered_node fd (new_node ids.sid_router 0) ∷ []) ∷ []

router_service : (ids : ProtocolIds) → is_service ids ids.sid_router ≡ true
router_service ids = rw ((==_iff ids.sid_router ids.sid_router).1 refl) refl

module _ (ids : ProtocolIds) (pb : MessageLite) (ip : List ℕ) where
  -- One service, and the words behind it.
  fill_table-known :
      (type : String) (types : List String) (s : Started)
      → is_service ids (atoi type) ≡ true
      → fill_table ids true true true pb ip (type ∷ types) s ≡ (
          service_init ids true true true pb ip
            (atoi type)
            (record s { table = s.table ++ some (atoi type, []) ∷ [] })
          >>= fill_table ids true true true pb ip types)
  unfolding fill_table create_service_node
  fill_table-known type types s a = rw (fill_table, a) refl

  service_init-plain :
      (sid : ℕ) (s : Started)
      → (sid == ids.sid_router) ≡ false
      → service_init ids true true true pb ip sid s ≡ ret s
  unfolding service_init
  service_init-plain sid s c = rw c refl

  -- Services other than the router's.
  fill_table-plain :
      (types more : List String) (s : Started)
      → known ids types ≡ true
      → listed ids.sid_router types ≡ false
      → fill_table ids true true true pb ip (types ++ more) s
        ≡ fill_table ids true true true pb ip more
            (record s { table = s.table ++ all_set (plain types) })
  unfolding fill_table
  fill_table-plain [] more s k h = rw append-nil refl
  fill_table-plain (type ∷ types) more s k h =
      let (a, b, c, d) =
        parts (is_service ids (atoi type)) (known ids types) (atoi type == ids.sid_router)
          (listed ids.sid_router types) k h in
      fill_table-known type (types ++ more) s a
      ∙ rw
          (
            service_init-plain (atoi type)
                (record s { table = s.table ++ some (atoi type, []) ∷ [] }) c,
            ◌>>=◌,
            fill_table-plain types more (record s { table = s.table ++ some (atoi type, []) ∷ [] })
                b d,
            append_assoc s.table (some (atoi type, []) ∷ []) (all_set (plain types)),
          )
          refl
    where
      parts :
          (a b c d : Bool)
          → (a && b) ≡ true
          → (c || d) ≡ false
          → (a ≡ true) × (b ≡ true) × (c ≡ false) × (d ≡ false)
      parts a b c d e f = ground arith

  module _ (body : List ℕ) (fd : ℕ) (front : List String) (answers : List (Option ℕ))
      (unlisted : listed ids.sid_router front ≡ false) (one : first_some (take 4 answers) ≡ some fd)
      (short : fits_ip ip ≡ true) (written : pb.serialize_to_array pb.byte_size ≡ some body)
      (size : length body ≡ pb.byte_size) (some_body : 1 ≤ pb.byte_size)
      (small : pb.byte_size + 27 < 2 ^ 16) (sid_small : ids.sid_router < 2 ^ 16)
      (cid_small : ids.cid_router_client_register_req < 2 ^ 16) where
    abbrev before : Services
    before = plain front ++ (ids.sid_router, []) ∷ []

    abbrev after : Services
    after = with_router ids fd front

    router_init-done :
        (regs : List Registration)
        → (m : Msg) × IsPacket m
            (request_header ids.sid_router ids.cid_router_client_register_req)
            body
          × (router_init ids true true true pb ip
                (record { table = all_set before; registrations = regs; answers = answers })
              ≡ ret (record {
                table = all_set after;
                registrations =
                    regs ++ record { services = after; fd = fd; cb = none; request = some m } ∷ [];
                answers = (connect_router 4 0 answers).2;
              }))
    unfolding router_init on_node new_node
    router_init-done regs =
        let (m, p, done) =
          regist_req-done ids pb body ip fd before [] answers one
            (get_service_node-last ids.sid_router [] front unlisted) short written size some_body
            small sid_small cid_small in
        (
          m,
          p,
          rw
              (
                set_entries-all before,
                done,
                ◌>>=◌,
                table_get-last ids.sid_router [] front unlisted,
                ◌>>=◌,
                on_service-last ids.sid_router [] (λ _. [] ++ new_node ids.sid_router 0 ∷ []) front
                    unlisted,
                on_service-last ids.sid_router (new_node ids.sid_router 0 ∷ [])
                    (on_node 0 (registered_node fd)) front unlisted,
                with_entries-all (plain front) (ids.sid_router, [])
                    (ids.sid_router, registered_node fd (new_node ids.sid_router 0) ∷ []),
              )
              refl,
        )

    -- The table before the words, and what `init` leaves.
    abbrev empty : Started
    empty = record { table = []; registrations = []; answers = answers }

    abbrev left : Msg → Services → Started
    left m services = record {
      table = all_set services;
      registrations = record { services = after; fd = fd; cb = none; request = some m } ∷ [];
      answers = (connect_router 4 0 answers).2;
    }

    service_init-router :
        (s : Started)
        → service_init ids true true true pb ip ids.sid_router s
          ≡ router_init ids true true true pb ip s
    unfolding service_init
    service_init-router s = rw ((==_iff ids.sid_router ids.sid_router).1 refl) refl

    fill_table-last :
        (back : List String) (m : Msg)
        → known ids back ≡ true
        → listed ids.sid_router back ≡ false
        → fill_table ids true true true pb ip back (left m after)
          ≡ ret (left m (after ++ plain back))
    unfolding fill_table
    fill_table-last back m k h =
        ap (λ ts. fill_table ids true true true pb ip ts (left m after)) (sym (append-nil back))
        ∙ fill_table-plain back [] (left m after) k h
        ∙ ap (λ t. ret (record (left m after) { table = t }))
            (sym (all_set-append after (plain back)))

    fill_table-router :
        (m : Msg) (router : String) (back : List String)
        → known ids front ≡ true
        → atoi router ≡ ids.sid_router
        → known ids back ≡ true
        → listed ids.sid_router back ≡ false
        → router_init ids true true true pb ip
            (record { table = all_set before; registrations = []; answers = answers })
          ≡ ret (left m after)
        → fill_table ids true true true pb ip (front ++ router ∷ back) empty
          ≡ ret (left m (after ++ plain back))
    fill_table-router m router back known_front number known_back unlisted_back done =
        fill_table-plain front (router ∷ back) empty known_front unlisted
        ∙ fill_table-known router back (record empty { table = all_set (plain front) })
            (rw number (router_service ids))
        ∙ rw
            (
              number,
              sym (all_set-append (plain front) ((ids.sid_router, []) ∷ [])),
              service_init-router,
              done,
              ◌>>=◌,
            )
            (fill_table-last back m known_back unlisted_back)

    -- The configured value is one to a hundred words, apart by one blank or more. Their numbers are
    -- services that the process knows, the router's once among them. The configuration of the router
    -- and the listening address are there, one of four connections to the router succeeds, the address
    -- fits, malloc succeeds and protobuf writes the request. Then `init` makes a table with one entry
    -- for each word, in order: the router's service has its node, in NODE_ABLE and on this connection,
    -- and the others have no nodes. One registration is made, which queues a packet with the request
    -- and sets no callback. Of the configured value the first word is left.
    pub mgr_init-router :
        (w router : String) (rest : List (ℕ × String)) (back : List String)
        → word w ≡ true
        → all_words rest ≡ true
        → length rest ≤ 99
        → w ∷ words rest ≡ front ++ router ∷ back
        → known ids front ≡ true
        → atoi router ≡ ids.sid_router
        → known ids back ≡ true
        → listed ids.sid_router back ≡ false
        → (m : Msg) × IsPacket m
            (request_header ids.sid_router ids.cid_router_client_register_req)
            body
          × (mgr_init ids true true true pb ip (some (w ++ spaced rest)) answers
              ≡ ret (
                  some (
                    w,
                    record {
                      table = all_set (with_router ids fd front ++ plain back);
                      registrations =
                          record {
                            services = with_router ids fd front;
                            fd = fd;
                            cb = none;
                            request = some m;
                          }
                          ∷ [];
                      answers = (connect_router 4 0 answers).2;
                    },
                  )))
    unfolding mgr_init left_of_value
    mgr_init-router w router rest back s k h split known_front number known_back unlisted_back =
        let (m, p, done) = router_init-done [] in
        (
          m,
          p,
          rw
              (
                split_types-words w rest s k h,
                ◌>>=◌,
                split,
                fill_table-router m router back known_front number known_back unlisted_back done,
                ◌>>=◌,
              )
              refl,
        )
