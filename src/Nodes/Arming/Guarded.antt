-- ===== src/Nodes/Arming/Guarded.antt =====
-- What the servo hats of a fleet can rely on.
use robot_framework_ros.Prelude.{Text, ℕ, ◌≡◌}
use robot_framework_ros.Prelude.Table.{Table}
use robot_framework_ros.Core.{ArmCommandMsg, ArmStateChangeRequest, ReadyToArmStatusMsg}
use robot_framework_ros.Platform.{Platform}
use robot_framework_ros.Translate.Infrastructure.{arm_command_to_core, arm_command_to_ros}
use robot_framework_ros.BaseNode.State.{Output, sent}
use robot_framework_ros.BaseNode.Run.Outbox.{All}
use robot_framework_ros.Nodes.Process.{Process}
use robot_framework_ros.Nodes.Program.{run_10hz as show_10hz}
use robot_framework_ros.Nodes.ArmedStateManager.{
  Manager, State, Sent, command_sent, receive, run_loop1, run_10hz,
}
use robot_framework_ros.Nodes.ServoHat.{
  Hat, State as HatState, receive as hat_receive, run_loop1 as hat_loop1,
}
use robot_framework_ros.Nodes.Arming.Fleet.{Fleet}

module _ ⦃p : Platform⦄ where
  -- A property that the methods keep which every node calls.
  pub record IsSafe {P : Type 0} (q : Process P) (I : P → Type 0) : Type 0 where
    pub update : (t : p.Real) (x : P) → I x → I (q.update t x)
    pub update_diagnostic :
        (kind level message : ℕ) (description : Text) (x : P)
        → I x
        → I (q.update_diagnostic kind level message description x)

module _ ⦃p : Platform⦄ {M H : Type 0} (q : Manager M) (k : Hat H) where
  -- The manager's process keeps J.
  pub record IsSafeManager (J : M → Type 0) : Type 0 where
    pub common : IsSafe q.common J
    pub request : (r : ArmStateChangeRequest) (x : M) → J x → J (q.request_armstate_change r x).0
    pub status : (m : ReadyToArmStatusMsg) (x : M) → J x → J (q.new_ready_to_arm_status m x).0

  -- A command that the manager's process gives in a state with J, as it comes out of a message.
  abbrev pub IsGiven : (M → Type 0) → ArmCommandMsg → Type 0
  IsGiven J c = (x : M) × J x × (c ≡ arm_command_to_core (arm_command_to_ros (q.get_arm_command x)))

  -- A hat's process keeps I, given such commands.
  pub record IsSafeHat (J : M → Type 0) (I : H → Type 0) : Type 0 where
    pub common : IsSafe k.common I
    pub servo : (channel value : ℕ) (x : H) → I x → I (k.set_servo_value channel value x).0
    pub command :
        (c : ArmCommandMsg) (x : H) → IsGiven J c → I x → I (k.update_robot_arm_command c x)

  module _ (J : M → Type 0) (I : H → Type 0) (safe : IsSafeManager J) (hat : IsSafeHat J I) where
    -- A command in the manager's outbox is one that it gave.
    abbrev pub IsIssued : Output Sent → Type 0
    IsIssued (sent (command_sent msg)) =
        (x : M) × J x × (msg ≡ arm_command_to_ros (q.get_arm_command x))
    IsIssued _ = Unit

    abbrev pub IsGuardedManager : State q → Type 0
    IsGuardedManager d = J d.own.process × All IsIssued d.outbox

    abbrev pub IsGuardedHat : HatState k → Type 0
    IsGuardedHat d = I d.own.process

    pub record IsGuarded (f : Fleet q k) : Type 0 where
      pub manager : IsGuardedManager f.manager.derived
      pub hats : (i : ℕ) → IsGuardedHat (f.hats i).derived
