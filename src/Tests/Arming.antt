-- ===== src/Tests/Arming.antt =====
-- Nodes that are armed together, at concrete inputs.
use robot_framework_ros.Prelude.{text, put, ℕ, ◌≤◌, ◌≡◌, true, [], ◌∷◌, arith}
use robot_framework_ros.Prelude.Table.{number_key}
use robot_framework_ros.Translate.Infrastructure.{
  arm_command_to_ros, request_to_ros, response_to_ros,
}
use robot_framework_ros.BaseNode.State.{emit, sent, new_base, heartbeat_sent, Output}
use robot_framework_ros.BaseNode.Loops.{beat}
use robot_framework_ros.Nodes.ArmedStateManager.{
  Manager, arm_statechange_service, receive as receive_manager, manager_program, command_sent,
  run_10hz as run_manager, Sent as ManagerSent,
}
use robot_framework_ros.Nodes.Process.{show_ready, with_process}
use robot_framework_ros.BaseNode.Run.{main_loop}
use robot_framework_ros.Nodes.TeleopControl.{
  Teleop, State as TeleopState, run_10hz, change_asked, logged_changed,
  command_came as teleop_command_came, receive as receive_teleop,
}
use robot_framework_ros.Nodes.TeleopControl.Arming.{answer_of, run_10hz-arm_statechange_service}
use robot_framework_ros.Messages.{ArmCommand}
use robot_framework_ros.Nodes.ServoHat.{
  Hat, State as HatState, command_came as hat_command_came, receive as receive_hat,
}
use robot_framework_ros.Nodes.Arming.{run_10hz-arm_command}
use robot_framework_ros.Monitor.Header.{new_arm_command_msg}
use robot_framework_ros.Tests.Monitor.{a_header}
use robot_framework_ros.Tests.Bench.{bench, node_in}
use robot_framework_ros.Nodes.Arming.Fleet.{Fleet, hear}
use robot_framework_ros.Tests.Nodes.{a_process, a_manager, a_manager_state}

abbrev a_teleop : Teleop ℕ ℕ
a_teleop = record {
  common = a_process;
  init = λ c x. (x, true);
  default_calibration = 0;
  mode_run = 1;
  mode_joy_test = 2;
  armed_unknown = 0;
  set_operation_mode = λ mode x. (x, true);
  update_robot_arm_command = λ msg x. x;
  new_joy = λ msg x. x;
  get_twist_output = λ x. record {
    linear = record { x = 0; y = 0; z = 0 };
    angular = record { x = 0; y = 0; z = 0 };
  };
  get_armstate_change_request = λ x. record { requested_armed_state = 3 };
}

abbrev a_teleop_state : TeleopState a_teleop
a_teleop_state = record {
  diagnostics = [];
  ready_to_arm = bench.default_ready_to_arm;
  own = record { running = true; process = 1; more = tt };
  reads = 0;
  outbox = [];
}

-- A manager that does what it is asked for.
abbrev a_willing_manager : Manager ℕ
a_willing_manager = record a_manager {
  request_armstate_change = λ r x. (
    r.requested_armed_state,
    record { current_armed_state = r.requested_armed_state; request_approved = true },
  );
}

run_10hz-arm_statechange_service_example :
    let req = request_to_ros (record { requested_armed_state = 3 }) in
    let (y', response) =
      a_willing_manager.request_armstate_change (record { requested_armed_state = 3 }) 1 in
    (arm_statechange_service a_willing_manager req 1 ≡ (y', response_to_ros response, true))
    × ((run_10hz a_teleop (answer_of a_teleop a_willing_manager 1) new_base a_teleop_state).0
        ≡ emit
            (sent logged_changed)
            (emit (sent (change_asked req)) (show_ready a_process a_teleop_state)))
run_10hz-arm_statechange_service_example =
    run_10hz-arm_statechange_service a_teleop a_willing_manager 1 new_base a_teleop_state
      (omega arith) (omega arith)

abbrev a_hat : Hat ℕ
a_hat = record {
  common = a_process;
  init = λ x. (x, true);
  update_robot_arm_command = λ command x. command.armed_state;
  set_servo_value = λ channel value x. (x, true);
}

abbrev a_hat_state : HatState a_hat
a_hat_state = record {
  diagnostics = [];
  ready_to_arm = bench.default_ready_to_arm;
  own = record { running = true; process = 0; more = tt };
  reads = 0;
  outbox = [];
}

run_10hz-arm_command_example :
    (msg : ArmCommand) × ((run_manager a_manager new_base a_manager_state).0
      ≡ emit (sent (command_sent msg)) (show_ready a_process a_manager_state))
    × (receive_hat a_hat (hat_command_came msg ∷ []) a_hat_state ≡ with_process 1 a_hat_state)
    × (receive_teleop a_teleop (teleop_command_came msg ∷ []) a_teleop_state
        ≡ with_process 1 a_teleop_state)
    × ((new_arm_command_msg msg a_header).latest_arm_command ≡ record { armed_state = 1 })
run_10hz-arm_command_example =
    run_10hz-arm_command a_manager a_hat a_teleop new_base a_manager_state a_hat_state
      a_teleop_state a_header (omega arith)

-- The armed state is at most 3.
abbrev IsSmall : ℕ → Type 0
IsSmall x = x ≤ 3

abbrev a_fleet : Fleet a_manager a_hat
a_fleet = record {
  manager = record { base = (node_in 2).base; derived = record a_manager_state { reads = 1 } };
  hats = λ i. record { base = (node_in 2).base; derived = a_hat_state };
}

-- The manager has run one round.
abbrev after_manager : Fleet a_manager a_hat
after_manager = record a_fleet {
  manager =
      (main_loop 1
        (manager_program a_manager (text "a", text "b", text "c") (λ r. []) a_manager_state).methods
        a_fleet.manager).0;
}

abbrev a_beat : Output ManagerSent
a_beat = heartbeat_sent (beat (node_in 3).base 4)

abbrev after_beat : Fleet a_manager a_hat
after_beat = record after_manager {
  hats = put 5 (hear a_manager a_hat a_beat (after_manager.hats 5)) after_manager.hats;
}

abbrev a_command : Output ManagerSent
a_command = sent (command_sent (arm_command_to_ros (record { armed_state = 1 })))

-- Its command has come to the fifth hat.
abbrev after_command : Fleet a_manager a_hat
after_command = record after_beat {
  hats = put 5 (hear a_manager a_hat a_command (after_beat.hats 5)) after_beat.hats;
}
