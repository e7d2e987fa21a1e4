-- ===== src/Nodes/Process.antt =====
-- What every node takes from its `process`, a class of the core library, and the methods that are
-- the same in every node of Systems/ that has one: `start`, `stop`, `run_1hz` and `run_01hz`.
use robot_framework_ros.Prelude.{Text, ℕ, Bool, true, List, [], ◌∷◌}
use robot_framework_ros.Prelude.Table.{Table}
use robot_framework_ros.Core.{DiagnosticMsg, ReadyToArmStatusMsg}
use robot_framework_ros.Platform.{Platform}
use robot_framework_ros.BaseNode.State.{
  Base, Derived, Node, set_diagnostics, set_ready_to_arm, tick,
}
use robot_framework_ros.BaseNode.Lifecycle.{base_start}

module _ ⦃p : Platform⦄ where
  pub record Process (P : Type 0) : Type 0 where
    pub system_id : P → ℕ
    pub subsystem_id : P → ℕ
    pub process_id : P → ℕ
    pub update : p.Real → P → P
    pub get_ready_to_arm : P → ReadyToArmStatusMsg
    pub get_diagnostics : P → List DiagnosticMsg
    pub update_diagnostic : ℕ → ℕ → ℕ → Text → P → P

  -- The members `is_node_running` and `process`, and those of the class itself.
  pub record Members (P M : Type 0) : Type 0 where
    pub running : Bool
    pub process : P
    pub more : M

  -- The loop of `run_01hz` over the base diagnostics.
  abbrev pub update_diagnostics : {P : Type 0} → Process P → Table ℕ DiagnosticMsg → P → P
  update_diagnostics q [] x = x
  update_diagnostics q ((k, m) ∷ rest) x =
      update_diagnostics q rest
        (q.update_diagnostic m.diagnostic_type m.level m.diagnostic_message m.description x)

  module _ {P M E : Type 0} where
    abbrev pub with_process : P → Derived (Members P M) E → Derived (Members P M) E
    with_process x d = record d { own = record (d.own) { process = x } }

    abbrev pub set_running : Bool → Derived (Members P M) E → Derived (Members P M) E
    set_running r d = record d { own = record (d.own) { running = r } }

    unfoldable pub start : Node (Members P M) E → Node (Members P M) E × Bool
    start n = base_start (record n { derived = set_running true n.derived })

    -- `process.update(ros::Time::now().toSec())`.
    abbrev pub update_process : Process P → Derived (Members P M) E → Derived (Members P M) E
    update_process q d = with_process (q.update (p.to_sec (p.now d.reads)) d.own.process) (tick d)

    abbrev pub show_ready : Process P → Derived (Members P M) E → Derived (Members P M) E
    show_ready q d = set_ready_to_arm (q.get_ready_to_arm d.own.process) d

    -- `run_1hz`.
    unfoldable pub take_diagnostics :
        Process P → Base → Derived (Members P M) E → Derived (Members P M) E × Bool
    take_diagnostics q b d = (set_diagnostics (q.get_diagnostics d.own.process) d, true)

    -- `run_01hz`.
    unfoldable pub give_diagnostics :
        Process P → Base → Derived (Members P M) E → Derived (Members P M) E × Bool
    give_diagnostics q b d =
        (with_process (update_diagnostics q b.base_diagnostics d.own.process) d, true)

    abbrev pub quiet : Base → Derived (Members P M) E → Derived (Members P M) E × Bool
    quiet b d = (d, true)
