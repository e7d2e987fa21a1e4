-- ===== src/Tests/Nodes.antt =====
-- Nodes at concrete inputs.
use robot_framework_ros.Prelude.{text, ℕ, ◌≡◌, refl, ◌≢◌, true, false, none, some, [], ◌∷◌, arith}
use robot_framework_ros.BaseNode.State.{Derived, new_base}
use robot_framework_ros.BaseNode.Init.{
  base_init, finish_init, load_rates, load_rate, advertise_all, logger_level,
}
use robot_framework_ros.BaseNode.Lifecycle.{
  request_node_statechange, state_change_allowed, init_base_node_diagnostics,
}
use robot_framework_ros.BaseNode.Names.{get_config_path, read_base_nodename}
use robot_framework_ros.Prelude.Table.{lookup, number_key}
use robot_framework_ros.BaseNode.Run.{run_main}
use robot_framework_ros.Nodes.Process.{Process}
use robot_framework_ros.Nodes.JoystickCalibration.{
  Axis, Calibration, Joystick, Sent, joy_callbacks, joystick_program,
}
use robot_framework_ros.Nodes.JoystickCalibration.Bounds.{AllWithin, joy_callbacks-AllWithin}
use robot_framework_ros.Nodes.JoystickCalibration.Start.{reached_loop, joystick_program-ends}
use robot_framework_ros.Nodes.ArmedStateManager.{
  Manager, State, ManagerNode, subscribe_each, subscribe_all, check_subscribed, offer_service,
  load_config, set_up,
}
use robot_framework_ros.Nodes.ArmedStateManager.Subscriptions.{AllSubscribed, set_up-AllSubscribed}
use robot_framework_ros.Nodes.Setup.{
  crashed, failed, done, ◌>>=◌, checked, required, change, advertise, result, call_base_init,
  call_process, call_diagnostics, config_path,
}
use robot_framework_ros.Tests.Bench.{bench}

abbrev an_axis : Axis
an_axis = record { deadband = 0; least = 1000; most = 1000 }

abbrev a_calibration : Calibration
a_calibration = record { x = an_axis; y = an_axis; throttle = an_axis }

joy_callbacks-AllWithin_example :
    AllWithin 500 2000 1000
      (joy_callbacks ((500 ∷ 2000 ∷ 1000 ∷ []) ∷ (900 ∷ []) ∷ []) a_calibration)
joy_callbacks-AllWithin_example =
    joy_callbacks-AllWithin (λ a. ground arith) (λ a b c h k. ground arith) [] ((900 ∷ []) ∷ []) 500
      2000 1000 [] a_calibration

abbrev a_joystick : Derived Joystick Sent
a_joystick = record {
  diagnostics = [];
  ready_to_arm = bench.default_ready_to_arm;
  own = record { running = false; calibration_data = a_calibration; opened = none };
  reads = 0;
  outbox = [];
}

joystick_program-ends_example :
    reached_loop (
      run_main
        (joystick_program (λ path. true) (text "a", text "b", text "c") (λ n. []) a_joystick)
        10)
    ≡ false
joystick_program-ends_example =
    joystick_program-ends (λ path. true) (text "a", text "b", text "c") (λ n. []) a_joystick 10

-- A process that holds the armed state.
abbrev pub a_process : Process ℕ
a_process = record {
  system_id = λ x. 1;
  subsystem_id = λ x. 2;
  process_id = λ x. 3;
  update = λ t x. x;
  get_ready_to_arm =
      λ x. record { system_id = 1; subsystem_id = 2; process_id = 3; ready_to_arm = true };
  get_diagnostics = λ x. [];
  update_diagnostic = λ kind level message description x. x;
}

abbrev pub a_manager : Manager ℕ
a_manager = record {
  common = a_process;
  init = λ x. (x, true);
  set_config = λ n x. (x, true);
  request_armstate_change =
      λ r x. (x, record { current_armed_state = x; request_approved = false });
  new_ready_to_arm_status = λ msg x. (x, true);
  get_arm_command = λ x. record { armed_state = x };
}

abbrev pub a_manager_state : State a_manager
a_manager_state = record {
  diagnostics = [];
  ready_to_arm = bench.default_ready_to_arm;
  own = record {
    running = false;
    process = 1;
    more = record { nodes_to_monitor = []; ready_to_arm_subs = [] };
  };
  reads = 0;
  outbox = [];
}

abbrev a_manager_node : ManagerNode a_manager
a_manager_node = record { base = new_base; derived = a_manager_state }

-- The node after its `init`.
abbrev initialized : ManagerNode a_manager
initialized = elim (set_up a_manager (text "a", text "b", text "c") a_manager_node) [
  | crashed ↦ a_manager_node
  | failed n ↦ n
  | done u n ↦ n
]

init_succeeds :
    result (set_up a_manager (text "a", text "b", text "c") a_manager_node)
    ≡ some (initialized, true)
unfolding set_up ◌>>=◌ checked required change advertise result call_base_init call_process
    call_diagnostics config_path base_init finish_init load_rates load_rate advertise_all
    logger_level request_node_statechange state_change_allowed get_config_path read_base_nodename
    load_config subscribe_all subscribe_each check_subscribed offer_service
    init_base_node_diagnostics new_base lookup
init_succeeds = refl

set_up-AllSubscribed_example :
    AllSubscribed a_manager initialized × (initialized.derived.own.more.nodes_to_monitor ≢ [])
set_up-AllSubscribed_example =
    set_up-AllSubscribed a_manager (text "a", text "b", text "c") a_manager_node initialized refl
      init_succeeds
