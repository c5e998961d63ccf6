-- ===== src/Nodes/Notify.antt =====
-- `notifyNodeState` of src/core/RouterNode.cpp, the callback of a node's connection.
use snframe.Base.{◌≡◌, refl, Bool, true, Option, none, some, if◌then◌else◌, Outcome, ret, ◌>>=◌}
use snframe.Memory.{zeros}
use snframe.Packet.{Msg, null_msg, set_tag, set_body_head, bufalloc}
use snframe.Net.{ConnState, state_error, state_closed, state_connected, state_auth, state_none}
use snframe.Nodes.{Node, node_error, node_closed, set_state}

-- The message for the application. `set_tag` and `set_body_head` come before `bufalloc`, which
-- overwrites what they have made.
unfoldable pub state_message : Bool → Node → Outcome (Option Msg)
state_message granted n = set_tag null_msg n.id 0 >>= λ a. set_body_head a 0 n.type 0 1 >>= λ b.
    (let (msg, done) = bufalloc granted 27 in ret (if done then some msg else none))

-- The node, and the message that `notifyApp` is called with.
unfoldable pub notify_node_state : Bool → ConnState → Node → Outcome (Node × Option Msg)
notify_node_state granted state_error n =
    state_message granted n >>= λ msg. ret (set_state node_error n, msg)
notify_node_state granted state_closed n =
    state_message granted n >>= λ msg. ret (set_state node_closed n, msg)
notify_node_state granted state_connected n = ret (n, none)
notify_node_state granted state_auth n = ret (n, none)
notify_node_state granted state_none n = ret (n, none)

-- What `Connection::setState` of src/core/Connection.cpp makes of the node that the callback of the
-- connection is told of; `none` is a callback that is NULL.
unfoldable pub call_back : Bool → ConnState → Option Node → Outcome (Option Node × Option Msg)
call_back granted s none = ret (none, none)
call_back granted s (some n) = notify_node_state granted s n >>= λ r. ret (some r.0, r.1)

-- When malloc succeeds, an error and the closing of a node's connection set the node's state, and
-- the application gets a message of 27 zeros whatever the node: it carries neither the node's ids
-- nor a tag. A connection that becomes connected leaves the node, and the application gets nothing.
pub notify-blank :
    (n : Node)
    → (notify_node_state true state_error n
        ≡ ret (
          set_state node_error n,
          some (record { m_data = some (zeros 27); m_len = 0; m_alloc = 27 }),
        ))
      × (notify_node_state true state_closed n
          ≡ ret (
            set_state node_closed n,
            some (record { m_data = some (zeros 27); m_len = 0; m_alloc = 27 }),
          ))
      × (notify_node_state true state_connected n ≡ ret (n, none))
unfolding notify_node_state state_message set_tag set_body_head bufalloc
notify-blank n = (refl, refl, refl)
