-- ===== src/Monitor/Screen.antt =====
-- The windows together: the callbacks and `run_10hz` of
-- Tools/Applications/SystemMonitor/node/SystemMonitorNode.cpp. The map `windows` has the order of the
-- names: diagnostic_window, header_window, node_info_window, status_window. Only the node window
-- ever has the focus.
pub mod Selected
pub mod Consistent
use robot_framework_ros.Prelude.{
  ◌==◌, if◌then◌else◌, Text, ℕ, ◌+◌, Bool, true, ◌||◌, Option, none, some, List,
}
use robot_framework_ros.Platform.{Platform}
use robot_framework_ros.Messages.{ArmCommand, Heartbeat, ReadyToArm, Diagnostic}
use robot_framework_ros.Monitor.NodeInfo.{
  NodeInfo, new_heartbeat_msg, new_ready_to_arm_msg, new_key_event,
}
use robot_framework_ros.Monitor.NodeInfo.Row.{Color, update}
use robot_framework_ros.Monitor.Header.{
  ArmedStates, HeaderWindow, new_arm_command_msg, update as update_header,
}
use robot_framework_ros.Monitor.Status.{StatusWindow, update as update_status}
use robot_framework_ros.Monitor.Diagnostic.{
  Definitions, DiagnosticWindow, new_diagnostic_msg, set_node_to_monitor,
  update as update_diagnostic_window,
}

module _ ⦃p : Platform⦄ where
  pub record Screen : Type 0 where
    pub node_info : NodeInfo
    pub diagnostic : DiagnosticWindow
    pub header : HeaderWindow
    pub status : StatusWindow
    pub selected_node : Text
    pub kill_node : Bool
    -- The number of times the clock was read.
    pub reads : ℕ

  unfoldable pub arm_command_callback : ArmCommand → Screen → Screen
  arm_command_callback msg s = record s { header = new_arm_command_msg msg s.header }

  unfoldable pub heartbeat_callback : Heartbeat → Screen → Screen
  heartbeat_callback msg s = record s { node_info = new_heartbeat_msg msg s.node_info }

  unfoldable pub ready_to_arm_callback : ReadyToArm → Screen → Screen
  ready_to_arm_callback msg s = record s { node_info = new_ready_to_arm_msg msg s.node_info }

  unfoldable pub diagnostic_callback : Diagnostic → Screen → Screen
  diagnostic_callback msg s = record s { diagnostic = new_diagnostic_msg msg s.diagnostic }

  -- The rows of the windows.
  pub record Shown : Type 0 where
    pub diagnostic_rows : List (Color × Text)
    pub header_rows : List (Color × Text)
    pub node_rows : List (Color × Text)

  -- `KEY_q` and `KEY_Q`.
  abbrev pub is_quit : ℕ → Bool
  is_quit key = (key == 113) || (key == 81)

  -- The time that an iteration reads.
  abbrev pub time_of : Screen → p.Real
  time_of s = p.to_sec (p.now s.reads)

  unfoldable pub step_diagnostic : Definitions → Screen → Option (Screen × List (Color × Text))
  step_diagnostic defs s = elim (update_diagnostic_window defs (time_of s) s.diagnostic) [
    | none ↦ none
    | some (w, ok, rows) ↦
        some (
          record s { diagnostic = set_node_to_monitor s.selected_node w; reads = s.reads + 1 },
          rows,
        )
  ]

  unfoldable pub step_header : ArmedStates → Screen → Option (Screen × List (Color × Text))
  step_header a s = elim (update_header a (time_of s) s.header) [
    | none ↦ none
    | some (w, ok, rows) ↦ some (record s { header = w; reads = s.reads + 1 }, rows)
  ]

  unfoldable pub step_node_info : ℕ → Screen → Option (Screen × List (Color × Text))
  step_node_info key s =
      let w = if s.node_info.focused then (new_key_event key s.node_info).0 else s.node_info in
      elim (update (time_of s) w) [
        | none ↦ none
        | some (w', ok, rows) ↦ some (
          record s { node_info = w'; selected_node = w'.selected_node; reads = s.reads + 1 },
          rows,
        )
      ]

  unfoldable pub step_status : Screen → Screen
  step_status s = record s { status = (update_status (time_of s) s.status).0; reads = s.reads + 1 }

  unfoldable pub run_10hz : Definitions → ArmedStates → ℕ → Screen → Option (Screen × Shown)
  run_10hz defs a key s =
      let s0 : Screen = record s { kill_node = if is_quit key then true else s.kill_node } in
      elim (step_diagnostic defs s0) [
        | none ↦ none
        | some (s1, diagnostic_rows) ↦ elim (step_header a s1) [
          | none ↦ none
          | some (s2, header_rows) ↦ elim (step_node_info key s2) [
            | none ↦ none
            | some (s3, node_rows) ↦ some (
              step_status s3,
              record {
                diagnostic_rows = diagnostic_rows;
                header_rows = header_rows;
                node_rows = node_rows;
              },
            )
          ]
        ]
      ]
