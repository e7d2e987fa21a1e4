-- ===== src/Monitor/Main.antt =====
-- `main` of the system monitor (Tools/Applications/SystemMonitor/node/SystemMonitorNode.cpp). The
-- thread that it starts only reads `is_node_running`, which nothing sets to true.
pub mod Exits
use robot_framework_ros.Prelude.{if◌then◌else◌, ℕ, Option, none, some, List}
use robot_framework_ros.Core.{ArmCommandMsg}
use robot_framework_ros.Platform.{Platform}
use robot_framework_ros.BaseNode.State.{new_base}
use robot_framework_ros.BaseNode.Lifecycle.{base_start}
use robot_framework_ros.BaseNode.Run.{Exit, terminated, init_failed, start_failed, finished}
use robot_framework_ros.Nodes.Setup.{Outcome, crashed, failed, done}
use robot_framework_ros.Monitor.Program.{
  Monitor, Surroundings, Incoming, MonitorState, MonitorNode, new_monitor, set_up, methods,
  monitor_loop,
}

module _ ⦃p : Platform⦄ where
  -- A node that is constructed; what the base class has in the rest of the members is d.
  abbrev pub constructed : ArmCommandMsg → MonitorState → MonitorNode
  constructed command d = record {
    base = new_base;
    derived = record d { own = some (new_monitor command) };
  }

  -- After the loop; without members an exception has left it.
  abbrev pub after_loop : MonitorNode → Exit (Option Monitor) (Unit {0})
  after_loop n = elim (n.derived.own) [ none ↦ terminated | some m ↦ finished n ]

  -- `main` after `init`.
  unfoldable pub after_init :
      Surroundings
      → (ℕ → List Incoming)
      → ℕ
      → Outcome MonitorNode (Unit {0})
      → Exit (Option Monitor) (Unit {0})
  after_init s arrivals rounds crashed = terminated
  after_init s arrivals rounds (failed n) = init_failed n
  after_init s arrivals rounds (done u n) =
      let (n', ok) = base_start n in
      if ok then after_loop (monitor_loop rounds (methods s arrivals) n').0 else start_failed n'

  unfoldable pub monitor_main :
      Surroundings
      → (ℕ → List Incoming)
      → ArmCommandMsg
      → MonitorState
      → ℕ
      → Exit (Option Monitor) (Unit {0})
  monitor_main s arrivals command d rounds =
      after_init s arrivals rounds (set_up s.terminal (constructed command d))

  -- What `main` returns; EXIT_FAILURE is 1.
  abbrev pub exit_code : Exit (Option Monitor) (Unit {0}) → Option ℕ
  exit_code terminated = none
  exit_code (init_failed n) = some 1
  exit_code (start_failed n) = some 1
  exit_code (finished n) = some 0
