-- ===== src/Monitor/Robot.antt =====
-- The nodes of a robot and the windows of a monitor, in any interleaving: each node goes through
-- its main loop, and what it has published arrives in any order, once, more often or never. A topic
-- keeps its order, but each node publishes on several, and queues that are full drop messages.
pub mod Shown
pub mod Diagnosed
use robot_framework_ros.Prelude.{get_elem?, put, ℕ, ◌≡◌, some}
use robot_framework_ros.Platform.{Platform}
use robot_framework_ros.BaseNode.State.{
  Node, Methods, Output, heartbeat_sent, ready_to_arm_sent, diagnostic_sent,
}
use robot_framework_ros.BaseNode.Run.{main_loop}
use robot_framework_ros.Monitor.Diagnostic.{
  DiagnosticWindow, new_diagnostic_msg, update_diagnostics,
}
use robot_framework_ros.Monitor.NodeInfo.{
  NodeInfo, new_heartbeat_msg, new_ready_to_arm_msg, update_records, new_key_event,
}

module _ ⦃p : Platform⦄ where
  -- What the callbacks of the windows do with a message.
  abbrev pub hear : {E : Type 0} → Output E → NodeInfo → NodeInfo
  hear (heartbeat_sent msg) w = new_heartbeat_msg msg w
  hear (ready_to_arm_sent msg) w = new_ready_to_arm_msg msg w
  hear _ w = w

  abbrev pub hear_diagnostic : {E : Type 0} → Output E → DiagnosticWindow → DiagnosticWindow
  hear_diagnostic (diagnostic_sent msg) w = new_diagnostic_msg msg w
  hear_diagnostic _ w = w

  pub record Robot (U E : Type 0) : Type 0 where
    pub nodes : ℕ → Node U E
    pub window : NodeInfo
    pub diagnostics : DiagnosticWindow

module _ ⦃p : Platform⦄ {U E : Type 0} where
  pub data Step (m : ℕ → Methods U E) : Robot U E → Robot U E → Type 0 where
    runs :
        (r : Robot U E) (i : ℕ)
        → Step m r (record r { nodes = put i (main_loop 1 (m i) (r.nodes i)).0 r.nodes })
    arrives :
        (r : Robot U E) (i j : ℕ) (o : Output E)
        → get_elem? (r.nodes i).derived.outbox j ≡ some o
        → Step m r
            (record r { window = hear o r.window; diagnostics = hear_diagnostic o r.diagnostics })
    watches :
        (r : Robot U E) (t : p.Real)
        → Step m r (record r {
          window = update_records t r.window;
          diagnostics = update_diagnostics t r.diagnostics;
        })
    presses :
        (r : Robot U E) (key : ℕ) → Step m r (record r { window = (new_key_event key r.window).0 })

  pub data Reach (m : ℕ → Methods U E) (r : Robot U E) : Robot U E → Type 0 where
    here : Reach m r r
    next : {s t : Robot U E} → Reach m r s → Step m s t → Reach m r t
