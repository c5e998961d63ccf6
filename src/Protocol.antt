-- ===== src/Protocol.antt =====
-- The numbers of the protocol. They stand in IM.BaseDefine.pb.h, which the build generates from a
-- .proto file that the repository does not hold: a parameter of the model.
use snframe.Base.{ℕ}

pub record ProtocolIds : Type 0 where
  pub sid_other : ℕ
  pub sid_router : ℕ
  pub sid_conn : ℕ
  pub sid_db_proxy : ℕ
  pub sid_user_state : ℕ
  pub cid_other_authentication_req : ℕ
  pub cid_other_authentication_rsp : ℕ
  pub cid_other_heartbeat : ℕ
  pub cid_router_client_register_req : ℕ
  pub cid_router_client_register_rsp : ℕ
  pub cid_router_push_server_status : ℕ
