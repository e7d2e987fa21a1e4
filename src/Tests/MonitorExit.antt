-- ===== src/Tests/MonitorExit.antt =====
-- The end of the system monitor, at concrete inputs.
use robot_framework_ros.Prelude.{
  text, ℕ, ◌≡◌, refl, ◌≢◌, ◌↔◌, ◌⊎◌, inl, true, false, none, some, List, [], arith,
}
use robot_framework_ros.BaseNode.Timing.{measure_time_diff}
use robot_framework_ros.BaseNode.Init.{logger_level}
use robot_framework_ros.BaseNode.Loops.Once.{update_iff}
use robot_framework_ros.Monitor.Program.{Surroundings, Incoming, MonitorNode, methods, monitor_loop}
use robot_framework_ros.Monitor.Program.Narrow.{is_narrow}
use robot_framework_ros.Monitor.Program.Quit.{quit-ends}
use robot_framework_ros.Monitor.Main.{exit_code, monitor_main}
use robot_framework_ros.Monitor.Main.Exits.{monitor_main_iff}
use robot_framework_ros.Tests.Bench.{bench, node_in}
use robot_framework_ros.Tests.MonitorProgram.{surroundings, a_new_monitor, no_command}

-- Somebody holds q down.
abbrev with_q : Surroundings
with_q = record surroundings { key = λ reads. 113 }

abbrev nothing : ℕ → List Incoming
nothing reads = []

abbrev a_starting_monitor : MonitorNode
a_starting_monitor = record {
  base = (node_in 2).base;
  derived = record (a_new_monitor.derived) { reads = 1 };
}

quit-ends_example :
    monitor_loop 50 (methods with_q nothing) a_starting_monitor
    ≡ monitor_loop 1 (methods with_q nothing) a_starting_monitor
unfolding measure_time_diff
quit-ends_example =
    quit-ends with_q nothing 49 a_starting_monitor
      ((update_iff (methods with_q nothing) a_starting_monitor).0.1 (inl refl))
      (λ k h g. ground (arith, h, g)) (λ k h g. refl)

monitor_main_iff_example :
    let code = exit_code (monitor_main surroundings nothing no_command a_new_monitor.derived 20) in
    ((code ≡ some 1) ↔ ((logger_level (text "/test/node") ≡ none) ⊎ (true ≡ false)))
    × ((logger_level (text "/test/node") ≢ none)
          × (true ≡ true)
          × (is_narrow surroundings.terminal ≡ true)
        → code ≡ none)
monitor_main_iff_example = monitor_main_iff surroundings nothing no_command a_new_monitor.derived 20
