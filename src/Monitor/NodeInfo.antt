-- ===== src/Monitor/NodeInfo.antt =====
-- The state of `NodeInfoWindow` and what changes it
-- (Tools/Applications/SystemMonitor/src/Windows/NodeInfoWindow.cpp). `KEY_UP`, `KEY_DOWN` and the
-- levels of a message are those of curses and of the core library; the mutex has no effect in one
-- thread, and `previous_key` is only written.
pub mod Row
pub mod Records
pub mod Timeout
pub mod Width
pub mod View
use robot_framework_ros.Prelude.{
  ltb, ◌==◌, if◌then◌else◌, length, Text, text, ℕ, ◌%◌, ◌^◌, Bool, false, ◌||◌, none, some, [],
}
use robot_framework_ros.Prelude.Table.{Table, lookup, insert, modify, map_values, text_key}
use robot_framework_ros.Platform.{Platform}
use robot_framework_ros.Messages.{Nodestate, Heartbeat, ReadyToArm, state_unknown, state_starting}
use robot_framework_ros.Monitor.Integers.{ℤ, pos}
use robot_framework_ros.Monitor.Selection.{
  decrement_selected_record, increment_selected_record, update_record_count,
}

pub data NodeType : Type 0 where
  node_unknown fast non_fast : NodeType

module _ ⦃p : Platform⦄ where
  -- The members that are read somewhere before the window is drawn.
  pub record NodeData : Type 0 where
    pub id : ℕ
    pub state : Nodestate
    pub kind : NodeType
    pub pid : ℕ
    pub host_device : Text
    pub base_node_name : Text
    pub node_name : Text
    pub ready_to_arm : Text
    pub cpu_used_perc : p.Real
    pub last_heartbeat : p.Real
    pub last_heartbeat_delta : p.Real
    pub restart_count : ℕ

  -- `NodeInfoWindow` and its part of `BaseWindow`. `shown` is false when the pointer to the window
  -- is null.
  pub record NodeInfo : Type 0 where
    pub nodes : Table Text NodeData
    pub record_count : ℕ
    pub selected : ℤ
    pub focused : Bool
    pub shown : Bool
    pub current_time : p.Real
    pub selected_node : Text

  -- The window when it is constructed; its time is not initialised.
  unfoldable pub new_node_info : Bool → NodeInfo
  new_node_info shown = record {
    nodes = [];
    record_count = 0;
    selected = pos 0;
    focused = false;
    shown = shown;
    current_time = p.uninitialised 0;
    selected_node = [];
  }

  -- `NodeData(id, type, host_device, base_node_name, node_name)`: the id passes an `int16_t`.
  abbrev pub new_node_data : ℕ → NodeType → Text → Text → Text → NodeData
  new_node_data id kind device base_node_name node_name = record {
    id = id % 2 ^ 16;
    state = record { state = state_starting };
    kind = kind;
    pid = 0;
    host_device = device;
    base_node_name = base_node_name;
    node_name = node_name;
    ready_to_arm = text "UNKNOWN";
    cpu_used_perc = p.decimal 0 1;
    last_heartbeat = p.decimal 0 1;
    last_heartbeat_delta = p.decimal 0 1;
    restart_count = 0;
  }

  unfoldable pub insert_node : NodeType → Text → Text → Text → NodeInfo → NodeInfo × Bool
  insert_node kind device base_node_name node_name w =
      let before = length w.nodes in
      let nodes' =
        insert node_name (new_node_data before kind device base_node_name node_name) w.nodes in
      let after = length nodes' in
      (record w { nodes = nodes'; record_count = update_record_count after }, ltb before after)

  abbrev pub take_heartbeat : Heartbeat → p.Real → NodeData → NodeData
  take_heartbeat msg current it = record it {
    host_device = msg.host_name;
    base_node_name = msg.base_node_name;
    state = msg.node_state;
    last_heartbeat_delta = p.decimal 0 1;
    last_heartbeat = current;
  }

  unfoldable pub new_heartbeat_msg : Heartbeat → NodeInfo → NodeInfo
  new_heartbeat_msg msg w = elim (lookup msg.node_name w.nodes) [
    | some it ↦ record w {
      nodes = modify msg.node_name (take_heartbeat msg w.current_time) w.nodes;
    }
    | none ↦ (insert_node fast msg.host_name msg.base_node_name msg.node_name w).0
  ]

  abbrev pub ready_text : ReadyToArm → Text
  ready_text msg =
      if (msg.system_id == 0) || (msg.subsystem_id == 0) || (msg.process_id == 0)
      then text "INVALID"
      else if msg.ready_to_arm
      then text "TRUE"
      else text "FALSE"

  abbrev pub take_ready : ReadyToArm → p.Real → NodeData → NodeData
  take_ready msg current it = record it {
    ready_to_arm = ready_text msg;
    last_heartbeat_delta = p.decimal 0 1;
    last_heartbeat = current;
  }

  unfoldable pub new_ready_to_arm_msg : ReadyToArm → NodeInfo → NodeInfo
  new_ready_to_arm_msg msg w = elim (lookup msg.node_name w.nodes) [
    | some it ↦ record w { nodes = modify msg.node_name (take_ready msg w.current_time) w.nodes }
    | none ↦ (insert_node fast [] [] msg.node_name w).0
  ]

  -- The loop of `update` for one node.
  unfoldable pub check_heartbeat : p.Real → NodeData → NodeData
  check_heartbeat current d =
      let delta = p.sub current d.last_heartbeat in
      let d' = record d { last_heartbeat_delta = delta } in
      if p.less (p.decimal 50 1) delta
      then record d' { state = record { state = state_unknown }; ready_to_arm = text "UNKNOWN" }
      else d'

  -- `update` up to `updateWindow`, which draws.
  unfoldable pub update_records : p.Real → NodeInfo → NodeInfo
  update_records current w = record w {
    current_time = current;
    nodes = map_values (check_heartbeat current) w.nodes;
  }

  -- `newKeyEvent`: the window, and the text and level of the message. No command is sent.
  unfoldable pub new_key_event : ℕ → NodeInfo → NodeInfo × (Text × ℕ)
  new_key_event key w =
      let message : Text × ℕ = ([], p.level_debug) in
      if (key == p.key_up) || (key == p.key_down)
      then (if w.focused
          then (if key == p.key_up
              then (record w { selected = decrement_selected_record w.selected }, message)
              else (
                record w { selected = increment_selected_record w.record_count w.selected },
                message,
              ))
          else (w, message))
      else (w, message)

  -- `setFocus`.
  unfoldable pub set_focus : Bool → NodeInfo → NodeInfo
  set_focus focus w = record w { focused = focus }
