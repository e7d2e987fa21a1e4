-- ===== src/Tests/Monitor.antt =====
-- The system monitor at concrete inputs.
use robot_framework_ros.Prelude.{
  length, Text, text, ◌≤◌, ◌≡◌, refl, true, false, none, some, List, [], ◌∷◌, arith,
}
use robot_framework_ros.Prelude.Table.{lookup, text_key, number_key, map_values}
use robot_framework_ros.Messages.{Heartbeat, Diagnostic, state_unknown}
use robot_framework_ros.Monitor.Network.{TopicInfo, new_network, heartbeat_type}
use robot_framework_ros.Monitor.Network.Subscriptions.{IsSubscribed, rescans, rescans-IsSubscribed}
use robot_framework_ros.Monitor.Integers.{pos, narrow16}
use robot_framework_ros.Monitor.Selection.{decrement_selected_record, increment_selected_record}
use robot_framework_ros.Monitor.NodeInfo.{
  NodeData, NodeInfo, fast, new_node_data, new_node_info, update_records, new_heartbeat_msg,
  new_key_event, check_heartbeat,
}
use robot_framework_ros.Monitor.NodeInfo.Records.{
  Event, heartbeat_came, time_passed, key_pressed, focus_set, handle_all, IsConsistent,
  handle_all-IsConsistent,
}
use robot_framework_ros.Monitor.NodeInfo.Timeout.{state_in, first_heartbeat_lost}
use robot_framework_ros.Monitor.NodeInfo.Row.{
  get_node_info, get_window_header, Color, update, update_window, draw_rows, pad, digits,
  remove_first, color_of,
}
use robot_framework_ros.BaseNode.Pretty.{pretty}
use robot_framework_ros.Monitor.NodeInfo.Width.{get_node_info-width}
use robot_framework_ros.Monitor.Diagnostic.{
  Definitions, NodeDiagnosticMonitor, DiagnosticWindow, update_diagnostics, rows_from,
  update as update_diagnostic_window, update_window as update_window_of_diagnostic, row_of, trim,
  check_diagnostic, level_color, set_node_to_monitor,
}
use robot_framework_ros.Monitor.Diagnostic.Rows.{rows_from-total}
use robot_framework_ros.Monitor.Header.{
  ArmedStates, HeaderWindow, armed_color, update as update_header,
  update_window as update_window_of_header,
}
use robot_framework_ros.Monitor.Screen.{
  Screen, Shown, run_10hz, step_diagnostic, step_node_info, step_header, step_status,
}
use robot_framework_ros.Tests.Bench.{bench}

abbrev pub a_topic : TopicInfo
a_topic = record { name = text "/test/a/heartbeat"; datatype = heartbeat_type }

abbrev two_scans : List (List TopicInfo)
two_scans = (a_topic ∷ a_topic ∷ []) ∷ (a_topic ∷ []) ∷ []

rescans-IsSubscribed_example : IsSubscribed (rescans (text "/test/") two_scans new_network)
rescans-IsSubscribed_example = rescans-IsSubscribed (text "/test/") two_scans

abbrev a_heartbeat : Heartbeat
a_heartbeat = record {
  stamp = 0;
  host_name = [];
  base_node_name = [];
  node_name = text "a";
  node_state = record { state = 3 };
}

abbrev pub some_events : List Event
some_events =
    heartbeat_came a_heartbeat
    ∷ time_passed 1000
    ∷ focus_set true
    ∷ key_pressed 258
    ∷ heartbeat_came a_heartbeat
    ∷ []

handle_all-IsConsistent_example : IsConsistent (handle_all some_events (new_node_info true))
handle_all-IsConsistent_example = handle_all-IsConsistent true some_events

abbrev a_node : NodeData
a_node = new_node_data 0 fast [] [] (text "a")

-- A window at 10 s that knows the node a, which was heard of at 9 s.
abbrev a_window : NodeInfo
a_window = record {
  nodes = (text "a", record a_node { last_heartbeat = 9000; state = record { state = 3 } }) ∷ [];
  record_count = 1;
  selected = pos 0;
  focused = true;
  shown = true;
  current_time = 10000;
  selected_node = [];
}

first_heartbeat_lost_example :
    state_in (text "a") (update_records 6000 (new_heartbeat_msg a_heartbeat (new_node_info true)))
    ≡ some state_unknown
unfolding new_node_info lookup
first_heartbeat_lost_example = first_heartbeat_lost 6000 a_heartbeat (new_node_info true) refl refl

get_node_info-width_example :
    (row : Text) × (get_node_info a_node true ≡ some row)
    × (length row ≡ length (get_window_header 200))
get_node_info-width_example =
    get_node_info-width a_node true 200 (omega arith) (omega arith) (omega arith) (omega arith)

abbrev a_message : Diagnostic
a_message = record {
  stamp = 0;
  node_name = text "a";
  system_id = 1;
  subsystem_id = 1;
  process_id = 1;
  diagnostic_type = 9;
  level = 1;
  diagnostic_message = 1;
  description = text "Loop Timing Ok.";
}

abbrev an_entry : NodeDiagnosticMonitor
an_entry = record { node_diagnostic = a_message; last_update_sec = 1000; last_update_delta_sec = 0 }

abbrev a_diagnostic_window : DiagnosticWindow
a_diagnostic_window = record {
  monitors = (text "a", (9, an_entry) ∷ []) ∷ [];
  node_to_monitor = text "a";
  current_time = 1000;
  shown = true;
  window_width = 80;
}

abbrev pub some_definitions : Definitions
some_definitions = record {
  unknown_type = 12;
  end_of_list = 13;
  pretty_type = λ n. text "TIMING";
  pretty_message = λ n. text "NOERROR";
}

rows_from-total_example :
    (rows : List (Color × Text)) × (rows_from some_definitions 40 13 0 ((9, an_entry) ∷ [])
      ≡ some rows)
    × (length rows ≤ 13)
rows_from-total_example =
    rows_from-total some_definitions 40 13 0 ((9, an_entry) ∷ []) (omega arith)

abbrev pub armed_states : ArmedStates
armed_states = record {
  armed = 2;
  disarmed_cannot_arm = 3;
  disarmed = 4;
  arming = 5;
  pretty_armed_state = λ state. text "ARMED";
}

abbrev pub a_header : HeaderWindow
a_header = record {
  latest_arm_command = record { armed_state = 0 };
  current_time = 0;
  shown = true;
}

-- A screen whose diagnostic window has no node to show.
abbrev a_screen : Screen
a_screen = record {
  node_info = a_window;
  diagnostic = record a_diagnostic_window { node_to_monitor = [] };
  header = a_header;
  status = record { current_time = 0; shown = true };
  selected_node = text "a";
  kill_node = false;
  reads = 1;
}

-- The screen after a loop in which q was pressed.
abbrev next_screen : Screen × Shown
next_screen = elim (run_10hz some_definitions armed_states 113 a_screen) [
  | none ↦ (a_screen, record { diagnostic_rows = []; header_rows = []; node_rows = [] })
  | some r ↦ r
]

run_10hz_succeeds :
    run_10hz some_definitions armed_states 113 a_screen ≡ some (next_screen.0, next_screen.1)
unfolding run_10hz step_diagnostic step_node_info step_header step_status update_header
    update_window_of_header armed_color update_diagnostic_window update_window_of_diagnostic
    update_diagnostics rows_from row_of trim check_diagnostic level_color set_node_to_monitor
    new_key_event update update_window update_records check_heartbeat draw_rows get_node_info pad
    digits remove_first color_of pretty map_values lookup decrement_selected_record
    increment_selected_record narrow16
run_10hz_succeeds = refl
