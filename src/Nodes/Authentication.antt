-- ===== src/Nodes/Authentication.antt =====
-- A node that answers its authentication can be used: src/core/NodeMgr.cpp.
use snframe.Nodes.Found.{get-on_service, find-on_node}
use snframe.Base.{==_iff, ◌∙◌, ℕ, ◌%◌, ◌^◌, ◌≡◌, refl, true, some, List}
use snframe.Nodes.{Node, node_able, set_state, find_node, available}
use snframe.Net.{NetManager, state_connected}
use snframe.Net.Tcp.{set_conn_state}
use snframe.Nodes.Manager.{
  Services, get_service_node, on_service, mgr_find_node, mgr_available, on_node, authentication_rsp,
}

module _ (type nid : ℕ) (ss : Services) (ns : List Node) (n : Node)
    (e : get_service_node (type % 2 ^ 16) ss ≡ some ns) (f : find_node nid ns ≡ some n) where
  -- The services after the response.
  abbrev pub able_services : Services
  able_services = on_service (type % 2 ^ 16) (on_node nid (set_state node_able)) ss

  -- The node is known.
  pub rsp-known :
      (fd : ℕ) (net : NetManager)
      → authentication_rsp (some (type, nid)) fd ss net
        ≡ (able_services, set_conn_state state_connected fd net)
  unfolding authentication_rsp mgr_find_node
  rsp-known fd net = rw (authentication_rsp, mgr_find_node, e, f) refl

  served :
      get_service_node (type % 2 ^ 16) able_services ≡ some (on_node nid (set_state node_able) ns)
  served =
      get-on_service (type % 2 ^ 16) (type % 2 ^ 16) (on_node nid (set_state node_able)) ss
      ∙ rw ((==_iff (type % 2 ^ 16) (type % 2 ^ 16)).1 refl, e) refl

  found : find_node nid (on_node nid (set_state node_able) ns) ≡ some (set_state node_able n)
  unfolding set_state
  found = find-on_node nid (set_state node_able) ns n (λ m. refl) f

  -- It is found in NODE_ABLE, whatever its state was, and is available.
  pub rsp-able :
      (mgr_find_node (type % 2 ^ 16) nid able_services ≡ some (set_state node_able n))
      × (mgr_available (type % 2 ^ 16) nid able_services ≡ true)
  unfolding mgr_find_node mgr_available available set_state
  rsp-able =
      (rw (mgr_find_node, served, found) refl, rw (mgr_available, served, available, found) refl)
