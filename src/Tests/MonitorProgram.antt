-- ===== src/Tests/MonitorProgram.antt =====
-- The system monitor as a node, at concrete inputs.
use robot_framework_ros.Prelude.{text, ℕ, ◌≡◌, refl, Bool, true, some, List, [], ◌∷◌, ◌++◌, arith}
use robot_framework_ros.Prelude.Table.{lookup, number_key}
use robot_framework_ros.Core.{ArmCommandMsg}
use robot_framework_ros.Messages.{Heartbeat}
use robot_framework_ros.BaseNode.State.{new_base, Base, Derived, Methods, Output}
use robot_framework_ros.BaseNode.Lifecycle.{
  base_start, request_node_statechange, state_change_allowed, init_base_node_diagnostics,
}
use robot_framework_ros.BaseNode.Init.{
  base_init, finish_init, load_rates, load_rate, advertise_all, logger_level,
}
use robot_framework_ros.Nodes.Setup.{
  crashed, failed, done, ◌>>=◌, checked, unread, subscribe, call_base_init,
}
use robot_framework_ros.Monitor.Window.{dashed, convert_coordinate}
use robot_framework_ros.Monitor.Program.{
  Terminal, Surroundings, heartbeat_came, MonitorNode, new_monitor, init_windows, init_screen,
  set_up, methods, monitor_loop,
}
use robot_framework_ros.Monitor.Program.Sound.{IsSoundState}
use robot_framework_ros.Monitor.Program.Throughout.{monitor_loop-IsSoundState}
use robot_framework_ros.Tests.Monitor.{some_definitions, armed_states, a_topic}
use robot_framework_ros.BaseNode.Loops.{base_run_1hz, on_derived}
use robot_framework_ros.Monitor.Diagnostic.{DiagnosticWindow}
use robot_framework_ros.Monitor.Watching.{core_of, hear, latest, base_run_1hz-core_of}
use robot_framework_ros.Tests.Bench.{bench, Small, node_in}

abbrev a_terminal : Terminal
a_terminal = record {
  has_colors = true;
  main_width = 120;
  main_height = 40;
  newwin = λ c. true;
  getmaxx = λ c. c.width_pix;
}

abbrev pub surroundings : Surroundings
surroundings = record {
  terminal = a_terminal;
  definitions = some_definitions;
  armed_states = armed_states;
  topics = λ reads. a_topic ∷ [];
  key = λ reads. 258;
}

abbrev pub no_command : ArmCommandMsg
no_command = record { armed_state = 0 }

abbrev pub a_new_monitor : MonitorNode
a_new_monitor = record {
  base = new_base;
  derived = record {
    diagnostics = [];
    ready_to_arm = bench.default_ready_to_arm;
    own = some (new_monitor no_command);
    reads = 0;
    outbox = [];
  };
}

-- The node after its `init`.
abbrev initialized : MonitorNode
initialized = elim (set_up a_terminal a_new_monitor) [
  | crashed ↦ a_new_monitor
  | failed n ↦ n
  | done u n ↦ n
]

set_up_succeeds : set_up a_terminal a_new_monitor ≡ done tt initialized
unfolding set_up ◌>>=◌ checked unread subscribe call_base_init base_init finish_init load_rates
    load_rate advertise_all logger_level request_node_statechange state_change_allowed
    init_base_node_diagnostics new_base init_screen init_windows dashed convert_coordinate lookup
set_up_succeeds = refl

-- A node whose loops do nothing.
abbrev pub pass : Base → Derived Small Small → Derived Small Small × Bool
pass b d = (d, true)

abbrev pub idle : Methods Small Small
idle = record {
  start = base_start;
  run_100hz = pass;
  run_10hz = pass;
  run_1hz = pass;
  run_01hz = pass;
  run_001hz = pass;
  run_loop1 = pass;
  run_loop2 = pass;
  run_loop3 = pass;
  spin_once = λ b d. d;
}

base_run_1hz-core_of_example :
    (d : Derived Small Small) × (published : List (Output Small)) × (base_run_1hz idle (node_in 3)
      ≡ on_derived pass (record (node_in 3) { derived = d }))
    × (d.outbox ≡ (node_in 3).derived.outbox ++ published)
    × ((kind : ℕ) (w : DiagnosticWindow)
        → core_of (text "/test/node") kind (hear published w)
          ≡ latest kind (node_in 3).derived.diagnostics (core_of (text "/test/node") kind w))
base_run_1hz-core_of_example =
    base_run_1hz-core_of idle (node_in 3)
      (record { type_lt = ground arith; level_lt = ground arith; message_lt = ground arith }, tt)

abbrev a_beat : Heartbeat
a_beat = record {
  stamp = 0;
  host_name = [];
  base_node_name = [];
  node_name = text "/test/a";
  node_state = record { state = 3 };
}

monitor_loop-IsSoundState_example :
    IsSoundState
      (monitor_loop 10
        (methods surroundings (λ reads. heartbeat_came a_beat ∷ []))
        (base_start initialized).0).0.derived
monitor_loop-IsSoundState_example =
    monitor_loop-IsSoundState surroundings (λ reads. heartbeat_came a_beat ∷ []) no_command
      a_new_monitor initialized 10 refl set_up_succeeds
