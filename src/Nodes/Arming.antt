-- ===== src/Nodes/Arming.antt =====
-- Nodes together: the command that the armed state manager publishes, and those who receive it.
pub mod Fleet
pub mod Guarded
use robot_framework_ros.Prelude.{ℕ, ◌<◌, ◌≡◌, refl, ap, [], ◌∷◌, arith}
use robot_framework_ros.Core.{ArmCommandMsg}
use robot_framework_ros.Platform.{Platform}
use robot_framework_ros.Messages.{ArmCommand}
use robot_framework_ros.Translate.Infrastructure.{arm_command_to_core, arm_command_to_ros}
use robot_framework_ros.BaseNode.State.{Base, sent, emit}
use robot_framework_ros.Nodes.Process.{with_process, show_ready}
use robot_framework_ros.Nodes.ArmedStateManager.{Manager, State, command_sent, run_10hz}
use robot_framework_ros.Nodes.ServoHat.{
  Hat, State as HatState, command_came as hat_command_came, receive as hat_receive,
}
use robot_framework_ros.Nodes.TeleopControl.{
  Teleop, State as TeleopState, command_came as teleop_command_came, receive as teleop_receive,
}
use robot_framework_ros.Monitor.Header.{HeaderWindow, new_arm_command_msg}

module _ ⦃p : Platform⦄ where
  arm_command-round :
      (c : ArmCommandMsg) → c.armed_state < 256 → arm_command_to_core (arm_command_to_ros c) ≡ c
  unfolding arm_command_to_core arm_command_to_ros
  arm_command-round c h = ap (λ (s : ℕ). record { armed_state = s }) (omega (arith, h))

  -- When the command of the armed state manager's process fits in a byte, its 10 Hz loop publishes a
  -- message with which a servo hat and a teleop control node that receive it hand exactly that
  -- command to their processes, and which makes it the command of a header window.
  pub run_10hz-arm_command :
      {M H T C : Type 0} (manager : Manager M) (hat : Hat H) (teleop : Teleop T C) (b : Base)
      (d : State manager) (e : HatState hat) (f : TeleopState teleop) (w : HeaderWindow)
      → let command = manager.get_arm_command d.own.process in
        command.armed_state < 256
        → (msg : ArmCommand) × ((run_10hz manager b d).0
            ≡ emit (sent (command_sent msg)) (show_ready manager.common d))
          × (hat_receive hat (hat_command_came msg ∷ []) e
              ≡ with_process (hat.update_robot_arm_command command e.own.process) e)
          × (teleop_receive teleop (teleop_command_came msg ∷ []) f
              ≡ with_process (teleop.update_robot_arm_command command f.own.process) f)
          × ((new_arm_command_msg msg w).latest_arm_command ≡ command)
  unfolding run_10hz hat_receive teleop_receive new_arm_command_msg
  run_10hz-arm_command manager hat teleop b d e f w small =
      let command = manager.get_arm_command d.own.process in
      let same = arm_command-round command small in
      (
        arm_command_to_ros command,
        refl,
        ap (λ c. with_process (hat.update_robot_arm_command c e.own.process) e) same,
        ap (λ c. with_process (teleop.update_robot_arm_command c f.own.process) f) same,
        same,
      )
