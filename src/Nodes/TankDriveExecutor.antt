-- ===== src/Nodes/TankDriveExecutor.antt =====
-- `TankDriveExecutorNode` of
-- Systems/Navigation/Subsystems/NavigationExecutor/Nodes/DriveExecutor/TankDriveExecutorNode. The
-- process's output is a `TankDriveExecutorOutput`, so the `dynamic_cast` of `run_loop2` succeeds.
pub mod Safety
use robot_framework_ros.Prelude.{if◌then◌else◌, text, ℕ, Bool, true, List, [], ◌∷◌}
use robot_framework_ros.Platform.{Platform}
use robot_framework_ros.Translate.Geometry.{Twist, TwistMsg, twist_to_core}
use robot_framework_ros.BaseNode.State.{Base, Derived, Node, emit, sent}
use robot_framework_ros.BaseNode.Run.{Program}
use robot_framework_ros.Nodes.Process.{Process, Members, with_process, update_process, show_ready}
use robot_framework_ros.Nodes.Program.{process_program}
use robot_framework_ros.Nodes.Setup.{
  ◌>>=◌, ◌>>◌, Setup, call_base_init, call_process, call_diagnostics, own_text, advertise,
  subscribe, change,
}

module _ ⦃p : Platform⦄ where
  -- The process, and the constructor of `TankDriveChannelConfig`, of the core library.
  pub record Tank (P C : Type 0) : Type 0 where
    pub common : Process P
    pub init : P → P × Bool
    pub new_cmd : TwistMsg → P → P
    pub channel_config : p.Real → p.Real → p.Real → C
    pub set_config : C → C → P → P × Bool
    pub left_drive : P → p.Real
    pub right_drive : P → p.Real

  pub data Sent : Type 0 where
    left_sent right_sent : p.Real → Sent

  module _ {P C : Type 0} (q : Tank P C) where
    abbrev pub State : Type 0
    State = Derived (Members P (Unit {0})) Sent

    abbrev pub TankNode : Type 0
    TankNode = Node (Members P (Unit {0})) Sent

    abbrev pub twist_callback : Twist → P → P
    twist_callback msg x = q.new_cmd (twist_to_core msg) x

    unfoldable pub receive : List Twist → State → State
    receive [] d = d
    receive (msg ∷ rest) d = receive rest (with_process (twist_callback msg d.own.process) d)

    -- `load_config` is empty.
    unfoldable pub set_up : Setup TankNode (Unit {0})
    set_up = do
      call_base_init
      call_process q.init
      left ← own_text (text "/topic_left_drive")
      call_diagnostics q.common
      advertise (text "std_msgs/Float64") left
      right ← own_text (text "/topic_right_drive")
      advertise (text "std_msgs/Float64") right
      throttle ← own_text (text "/topic_command_throttle")
      subscribe throttle
      let channel = q.channel_config (p.decimal 10000 1) (p.decimal 15000 1) (p.decimal 20000 1)
      call_process (q.set_config channel channel)
      change (show_ready q.common)

    unfoldable pub run_loop1 : Base → State → State × Bool
    run_loop1 b d = (update_process q.common d, true)

    unfoldable pub run_loop2 : Base → State → State × Bool
    run_loop2 b d =
        let x = d.own.process in
        if (q.common.get_ready_to_arm x).ready_to_arm
        then (
          emit (sent (right_sent (q.right_drive x))) (emit (sent (left_sent (q.left_drive x))) d),
          true,
        )
        else (d, true)

    unfoldable pub tank_program : (ℕ → List Twist) → State → Program (Members P (Unit {0})) Sent
    unfolding process_program
    tank_program arrivals constructed =
        process_program q.common set_up run_loop1 run_loop2 (λ d. receive (arrivals d.reads) d)
          constructed
