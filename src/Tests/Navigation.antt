-- ===== src/Tests/Navigation.antt =====
-- The nodes that drive, at concrete inputs.
use robot_framework_ros.Prelude.{
  leb, Text, text, ℕ, ◌+◌, ◌≡◌, refl, ◌↔◌, true, false, none, some, [], ◌∷◌,
}
use robot_framework_ros.BaseNode.State.{Derived}
use robot_framework_ros.BaseNode.Names.{get_config_path}
use robot_framework_ros.BaseNode.Run.{run_main}
use robot_framework_ros.BaseNode.Run.Invariants.{OfExit}
use robot_framework_ros.BaseNode.Run.Outbox.{AllSent}
use robot_framework_ros.Translate.Geometry.{Twist, TwistMsg}
use robot_framework_ros.Nodes.Process.{Process, Members}
use robot_framework_ros.Nodes.Setup.{done}
use robot_framework_ros.Nodes.TankDriveExecutor.{Tank, Sent, tank_program}
use robot_framework_ros.Nodes.TankDriveExecutor.Safety.{SentDrives, tank_program-Drives}
use robot_framework_ros.Nodes.TrajectoryController.{
  Trajectory, ControllerNode, Sent as CommandSent, desired_came, load_config, controller_program,
}
use robot_framework_ros.Nodes.TrajectoryController.Config.{IsConfigured, load_config_iff}
use robot_framework_ros.Nodes.TrajectoryController.Commands.{Carries, controller_program-Carries}
use robot_framework_ros.Nodes.TeleopControl.{Teleop, missing, Sent as TeleopSent, teleop_program}
use robot_framework_ros.Nodes.TeleopControl.Driving.{IsReadyTwist, teleop_program-AllSent}
use robot_framework_ros.Tests.Bench.{bench, node_in}

-- A process that counts its updates and is ready from the second on.
abbrev pub counting : Process ℕ
counting = record {
  system_id = λ x. 1;
  subsystem_id = λ x. 2;
  process_id = λ x. 3;
  update = λ t x. x + 1;
  get_ready_to_arm =
      λ x. record { system_id = 1; subsystem_id = 2; process_id = 3; ready_to_arm = leb 2 x };
  get_diagnostics = λ x. [];
  update_diagnostic = λ kind level message description x. x;
}

abbrev forward : TwistMsg
forward = record {
  linear = record { x = 1000; y = 0; z = 0 };
  angular = record { x = 0; y = 0; z = 0 };
}

abbrev forward_twist : Twist
forward_twist = record {
  linear = record { x = 1000; y = 0; z = 0 };
  angular = record { x = 0; y = 0; z = 0 };
}

-- The members of a node before its `init`.
abbrev pub idle : (E : Type 0) → Derived (Members ℕ (Unit {0})) E
idle E = record {
  diagnostics = [];
  ready_to_arm = bench.default_ready_to_arm;
  own = record { running = false; process = 0; more = tt };
  reads = 0;
  outbox = [];
}

abbrev a_tank : Tank ℕ ℕ
a_tank = record {
  common = counting;
  init = λ x. (x, true);
  new_cmd = λ msg x. x;
  channel_config = λ low middle high. middle;
  set_config = λ left right x. (x, true);
  left_drive = λ x. x;
  right_drive = λ x. x + 1;
}

tank_program-Drives_example :
    OfExit
      (SentDrives a_tank)
      (run_main (tank_program a_tank (λ n. forward_twist ∷ []) (idle Sent)) 10)
tank_program-Drives_example =
    tank_program-Drives a_tank (λ n. forward_twist ∷ []) (idle Sent) 10 refl

abbrev a_controller : Trajectory ℕ ℕ ℕ
a_controller = record {
  common = counting;
  init = λ x. (x, true);
  new_desired_command = λ msg x. x;
  new_pose = λ msg x. x;
  pid_config = λ most least k_p k_i k_d scale. most;
  new_config = 0;
  set_pid_controller_config = λ pid config. (pid, true);
  set_config = λ config x. (x, true);
  get_command = λ x. (x, some forward);
}

controller_program-Carries_example : OfExit (AllSent (Carries a_controller a_tank)) (
    run_main
      (controller_program a_controller
        (text "a", text "b", text "c")
        (λ n. desired_came forward_twist ∷ [])
        (idle CommandSent))
      10)
controller_program-Carries_example =
    controller_program-Carries a_controller a_tank (text "a", text "b", text "c")
      (λ n. desired_came forward_twist ∷ []) (idle CommandSent) 10 refl

abbrev a_controller_node : ControllerNode a_controller
a_controller_node = record { base = (node_in 1).base; derived = idle CommandSent }

load_config_iff_example :
    (load_config a_controller (text "a", text "b", text "c") a_controller_node
      ≡ done tt a_controller_node)
    ↔ ((path : Text) × (get_config_path a_controller_node.base (text "a") (text "b") (text "c")
          ≡ some path)
        × IsConfigured a_controller path a_controller_node a_controller_node)
load_config_iff_example =
    load_config_iff a_controller (text "a") (text "b") (text "c") a_controller_node
      a_controller_node

abbrev a_driver : Teleop ℕ ℕ
a_driver = record {
  common = counting;
  init = λ c x. (x, true);
  default_calibration = 0;
  mode_run = 1;
  mode_joy_test = 2;
  armed_unknown = 0;
  set_operation_mode = λ mode x. (x, true);
  update_robot_arm_command = λ msg x. x;
  new_joy = λ msg x. x;
  get_twist_output = λ x. forward;
  get_armstate_change_request = λ x. record { requested_armed_state = 3 };
}

teleop_program-AllSent_example : OfExit (AllSent (IsReadyTwist a_driver)) (
    run_main
      (teleop_program a_driver missing
        (text "a", text "b", text "c")
        (λ n. [])
        (λ n req. none)
        (idle TeleopSent))
      10)
teleop_program-AllSent_example =
    teleop_program-AllSent a_driver missing (text "a", text "b", text "c") (λ n. []) (λ n req. none)
      (idle TeleopSent) 10 refl
