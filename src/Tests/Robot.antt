-- ===== src/Tests/Robot.antt =====
-- Runs of a node, and a robot with its monitor, at concrete inputs.
use robot_framework_ros.Prelude.{
  get_elem?, Text, text, put, ℕ, ◌≡◌, refl, inl, true, some, [], arith,
}
use robot_framework_ros.Prelude.Table.{lookup, insert, text_key}
use mathlib.Core.List.{mem-append_left, mem-append_right, mem-cons_self}
use robot_framework_ros.BaseNode.State.{
  Output, heartbeat_sent, diagnostic_sent, sent, emit, Derived, Methods, loop1, next_cycle,
}
use robot_framework_ros.BaseNode.Timing.{
  measure_time_diff, check_timing_diagnostic, check_loop, check_loops, report,
}
use robot_framework_ros.BaseNode.Loops.{
  send_diagnostics, update, beat, poll_each, poll, serve, run_loop,
}
use robot_framework_ros.BaseNode.Lifecycle.{request_node_statechange, state_change_allowed}
use robot_framework_ros.BaseNode.Loops.Once.{cycles_of, update_iff}
use robot_framework_ros.BaseNode.Loops.Reached.{update-served}
use robot_framework_ros.BaseNode.Run.{main_loop}
use robot_framework_ros.BaseNode.Run.Invariants.{IsKept}
use robot_framework_ros.BaseNode.Run.Heartbeats.{HasBeaten, update-HasBeaten}
use robot_framework_ros.BaseNode.Run.Outbox.{HasPublished, HasPublished-IsUndisturbed}
use robot_framework_ros.BaseNode.Run.Published.{AllProper, main_loop-AllProper}
use robot_framework_ros.Monitor.NodeInfo.{new_node_info, new_heartbeat_msg, insert_node}
use robot_framework_ros.Monitor.NodeInfo.Records.{handle_all}
use robot_framework_ros.Monitor.NodeInfo.View.{first_entry, view, replay, view-handle_all}
use robot_framework_ros.Monitor.Diagnostic.{new_diagnostic_window, new_diagnostic_msg}
use robot_framework_ros.Monitor.Robot.Diagnosed.{IsGenuine, Reach-IsGenuine}
use robot_framework_ros.Messages.{Diagnostic}
use robot_framework_ros.Translate.Infrastructure.{diagnostic_to_ros}
use robot_framework_ros.Monitor.Robot.{hear, hear_diagnostic, Robot, here, next, runs, arrives}
use robot_framework_ros.Monitor.Robot.Shown.{IsPossible, Reach-IsPossible}
use robot_framework_ros.Tests.Bench.{blank_diagnostic, bench, Small, node_in}
use robot_framework_ros.Tests.Monitor.{some_events}
use robot_framework_ros.Tests.MonitorProgram.{idle}

-- A node whose methods do nothing keeps everything.
idle-IsKept : (I : Derived Small Small → Type 0) → IsKept I idle
idle-IsKept I = record {
  run_100hz = λ b d h. h;
  run_10hz = λ b d h. h;
  run_1hz = λ b d h. h;
  run_01hz = λ b d h. h;
  run_001hz = λ b d h. h;
  run_loop1 = λ b d h. h;
  run_loop2 = λ b d h. h;
  run_loop3 = λ b d h. h;
  spin_once = λ b d h. h;
}

main_loop-AllProper_example :
    AllProper (text "/test/node") (main_loop 30 idle (node_in 2)).0.derived
main_loop-AllProper_example =
    main_loop-AllProper (text "/test/node") idle (idle-IsKept _) 30 (node_in 2) refl tt

-- A node whose loop1 publishes one message.
abbrev talking : Methods Small Small
talking = record idle { run_loop1 = λ b d. (emit (sent tt) d, true) }

talking-IsKept :
    (I : Derived Small Small → Type 0)
    → ((d : Derived Small Small) → I d → I (emit (sent tt) d))
    → IsKept I talking
talking-IsKept I talk = record {
  run_100hz = λ b d h. h;
  run_10hz = λ b d h. h;
  run_1hz = λ b d h. h;
  run_01hz = λ b d h. h;
  run_001hz = λ b d h. h;
  run_loop1 = λ b d h. talk d h;
  run_loop2 = λ b d h. h;
  run_loop3 = λ b d h. h;
  spin_once = λ b d h. h;
}

-- The clock of the bench has left the period of loop1 behind from the start: its message is
-- published.
update-served_example :
    HasPublished (sent tt) (update talking (node_in 2)).0.derived
    × (cycles_of loop1 (update talking (node_in 2)).0.base
        ≡ next_cycle (cycles_of loop1 (node_in 2).base))
unfolding measure_time_diff
update-served_example =
    update-served talking (λ r. talking-IsKept _ (λ d h. h)) (HasPublished (sent tt)) (node_in 2)
      loop1 (HasPublished-IsUndisturbed _) (talking-IsKept _ (λ d h. mem-append_left _ h))
      (λ b d f h. mem-append_right d.outbox mem-cons_self)
      ((update_iff talking (node_in 2)).0.1 (inl refl)) refl (λ k h g. ground (arith, h, g))

update-HasBeaten_example :
    HasBeaten 1
      (update idle (node_in 2)).0.derived.reads
      (node_in 2).base
      (update idle (node_in 2)).0.derived
unfolding measure_time_diff
update-HasBeaten_example =
    update-HasBeaten idle (λ o. idle-IsKept _) (node_in 2) (λ r. idle-IsKept _)
      ((update_iff idle (node_in 2)).0.1 (inl refl)) (λ k h g. ground (arith, h, g))

view-handle_all_example :
    view (handle_all some_events (new_node_info true))
    ≡ replay some_events (view (new_node_info true))
view-handle_all_example = view-handle_all some_events (new_node_info true)

-- Nodes of one name, and a monitor that knows none.
abbrev one_name : ℕ → Text
one_name i = text "/test/node"

abbrev a_robot : Robot Small Small
a_robot = record {
  nodes = λ i. node_in 2;
  window = new_node_info true;
  diagnostics = new_diagnostic_window true 80;
}

-- The first node has run one round.
abbrev after_round : Robot Small Small
after_round = record a_robot { nodes = put 0 (main_loop 1 idle (node_in 2)).0 a_robot.nodes }

abbrev a_heartbeat : Output Small
a_heartbeat = heartbeat_sent (beat (node_in 3).base 4)

-- Its heartbeat has arrived.
abbrev after_heartbeat : Robot Small Small
after_heartbeat = record after_round {
  window = hear a_heartbeat after_round.window;
  diagnostics = hear_diagnostic a_heartbeat after_round.diagnostics;
}

published_first : get_elem? (after_round.nodes 0).derived.outbox 0 ≡ some a_heartbeat
unfolding main_loop update request_node_statechange state_change_allowed poll_each poll
    measure_time_diff serve run_loop check_loops check_loop check_timing_diagnostic report
published_first = refl

Reach-IsPossible_example : IsPossible one_name (text "/test/node") (first_entry [] [])
unfolding new_node_info lookup new_heartbeat_msg insert_node insert
Reach-IsPossible_example =
    Reach-IsPossible one_name (λ i. idle) (λ i. idle-IsKept _) a_robot after_heartbeat (λ i. refl)
      (λ i. tt) (λ x. refl)
      (next (next here (runs a_robot 0)) (arrives after_round 0 0 a_heartbeat published_first))
      (text "/test/node") (first_entry [] []) refl

-- Its first diagnostic has arrived too.
abbrev a_diagnostic : Diagnostic
a_diagnostic = record (diagnostic_to_ros blank_diagnostic) {
  stamp = 7000;
  node_name = text "/test/node";
}

abbrev after_diagnostic : Robot Small Small
after_diagnostic = record after_heartbeat {
  window = hear {E = Small} (diagnostic_sent a_diagnostic) after_heartbeat.window;
  diagnostics =
      hear_diagnostic {E = Small} (diagnostic_sent a_diagnostic) after_heartbeat.diagnostics;
}

published_second :
    get_elem? (after_heartbeat.nodes 0).derived.outbox 1 ≡ some (diagnostic_sent a_diagnostic)
unfolding main_loop update request_node_statechange state_change_allowed poll_each poll
    measure_time_diff serve run_loop check_loops check_loop check_timing_diagnostic report
    send_diagnostics diagnostic_to_ros
published_second = refl

Reach-IsGenuine_example : IsGenuine after_diagnostic.nodes (text "/test/node") 0 a_diagnostic
unfolding new_diagnostic_window new_diagnostic_msg lookup insert diagnostic_to_ros
Reach-IsGenuine_example =
    Reach-IsGenuine (λ i. idle) (λ i o. idle-IsKept _) a_robot after_diagnostic (λ name kind. refl)
      (next
        (next (next here (runs a_robot 0)) (arrives after_round 0 0 a_heartbeat published_first))
        (arrives after_heartbeat 0 1 (diagnostic_sent a_diagnostic) published_second))
      (text "/test/node") 0 a_diagnostic refl
