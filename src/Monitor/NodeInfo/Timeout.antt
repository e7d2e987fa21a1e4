-- ===== src/Monitor/NodeInfo/Timeout.antt =====
-- When a node counts as lost.
use robot_framework_ros.Prelude.{
  if◌then◌else◌, Option-cases, length, Text, text_eq_refl, ℕ, ◌≡◌, ◌≢◌, inl, inr, true, Option,
  none, some, arith,
}
use robot_framework_ros.Prelude.Table.{
  lookup, lookup-insert_self, lookup-map_values, lookup-modify, modify, text_key,
}
use robot_framework_ros.Platform.{Platform}
use robot_framework_ros.Messages.{Heartbeat, state_unknown}
use robot_framework_ros.Monitor.NodeInfo.{
  NodeInfo, check_heartbeat, take_heartbeat, update_records, new_heartbeat_msg, insert_node,
  new_node_data, fast,
}

module _ ⦃p : Platform⦄ where
  -- The state in which the window has a node.
  abbrev pub state_in : Text → NodeInfo → Option ℕ
  state_in name w = elim (lookup name w.nodes) [ none ↦ none | some d ↦ some d.state.state ]

  -- At an update at time t a node that the window knows keeps its state when its last heartbeat is
  -- not more than five seconds before t, and is UNKNOWN otherwise; a node that it does not know
  -- stays so.
  pub update_records-state :
      (t : p.Real) (name : Text) (w : NodeInfo)
      → state_in name (update_records t w) ≡ elim (lookup name w.nodes) [
        | none ↦ none
        | some d ↦
            if p.less (p.decimal 50 1) (p.sub t d.last_heartbeat)
            then some state_unknown
            else some d.state.state
      ]
  unfolding update_records check_heartbeat
  update_records-state t name w = ground (arith, lookup-map_values (check_heartbeat t) name w.nodes)

  -- A heartbeat of a node that the window knows gives the node the state of the message, and an
  -- update at time t keeps that state exactly while t is not more than five seconds after the
  -- update before the heartbeat.
  pub heartbeat_then_update :
      (t : p.Real) (msg : Heartbeat) (w : NodeInfo)
      → lookup msg.node_name w.nodes ≢ none
      → let w' = new_heartbeat_msg msg w in
        (state_in msg.node_name w' ≡ some msg.node_state.state)
        × (state_in msg.node_name (update_records t w') ≡ (
            if p.less (p.decimal 50 1) (p.sub t w.current_time)
            then some state_unknown
            else some msg.node_state.state))
  unfolding new_heartbeat_msg
  heartbeat_then_update t msg w h = elim (Option-cases (lookup msg.node_name w.nodes)) [
    | inl missing ↦ absurd (h missing)
    | inr (d, known) ↦
        rw (known, new_heartbeat_msg)
          (let new = modify msg.node_name (take_heartbeat msg w.current_time) w.nodes in
            ground (
              arith,
              update_records-state t msg.node_name (record w { nodes = new }),
              lookup-modify msg.node_name msg.node_name (take_heartbeat msg w.current_time) w.nodes,
              text_eq_refl msg.node_name,
            ))
  ]

  -- The first heartbeat of a node is not counted: whatever state the message names, at a time t
  -- more than five seconds after 0.0 the next update has the node in the state UNKNOWN.
  pub first_heartbeat_lost :
      (t : p.Real) (msg : Heartbeat) (w : NodeInfo)
      → lookup msg.node_name w.nodes ≡ none
      → p.less (p.decimal 50 1) (p.sub t (p.decimal 0 1)) ≡ true
      → state_in msg.node_name (update_records t (new_heartbeat_msg msg w)) ≡ some state_unknown
  unfolding new_heartbeat_msg insert_node
  first_heartbeat_lost t msg w h late = ground (
    arith,
    update_records-state t msg.node_name (new_heartbeat_msg msg w),
    lookup-insert_self msg.node_name
        (new_node_data (length w.nodes) fast msg.host_name msg.base_node_name msg.node_name)
        w.nodes,
  )
