-- ===== src/Nodes/TeleopControl.antt =====
-- `BasicTeleopControlNode` of
-- Systems/UserInterface/Subsystems/RemoteControl/Nodes/TeleopControl/BasicTeleopControlNode. The
-- `XmlRpc` value of the parameter "calibration" is an argument, and so is what the ROS service
-- answers.
pub mod Arming
pub mod Driving
use robot_framework_ros.Prelude.{
  ◌==◌, if◌then◌else◌, Text, text, text_eq, ℕ, Bool, true, false, Option, none, some, List, [], ◌∷◌,
  ◌++◌,
}
use robot_framework_ros.Core.{ArmCommandMsg, ArmStateChangeRequest}
use robot_framework_ros.Platform.{Platform}
use robot_framework_ros.Messages.{ArmCommand, Request, Response}
use robot_framework_ros.Translate.Infrastructure.{arm_command_to_core, request_to_ros}
use robot_framework_ros.Translate.Geometry.{Twist, TwistMsg, twist_to_ros}
use robot_framework_ros.Translate.Sensor.{Joy, JoyMsg, joy_to_core}
use robot_framework_ros.BaseNode.State.{Base, Derived, Node, sent, emit}
use robot_framework_ros.BaseNode.Run.{Program}
use robot_framework_ros.Nodes.Process.{
  Process, Members, with_process, set_running, start, update_process, show_ready, take_diagnostics,
  give_diagnostics, quiet,
}
use robot_framework_ros.Nodes.Setup.{
  Setup, crashed, failed, ◌>>=◌, ◌>>◌, call_base_init, call_process, call_diagnostics, own_text,
  config_path, gets, subscribe, advertise, change, result,
}

module _ ⦃p : Platform⦄ where
  -- The parameter "calibration": missing, not a struct, a struct of which the read of a member throws
  -- an `XmlRpcException`, or a struct that is read into a C of the core library.
  pub data Calibration (C : Type 0) : Type 0 where
    missing not_a_struct bad_struct : Calibration C
    struct : C → Calibration C

  -- The process, with `JoystickCalibrationData` as C; `mode_…` and `armed_unknown` are enumerators.
  pub record Teleop (P C : Type 0) : Type 0 where
    pub common : Process P
    pub init : C → P → P × Bool
    pub default_calibration : C
    pub mode_run : ℕ
    pub mode_joy_test : ℕ
    pub armed_unknown : ℕ
    pub set_operation_mode : ℕ → P → P × Bool
    pub update_robot_arm_command : ArmCommandMsg → P → P
    pub new_joy : JoyMsg → P → P
    pub get_twist_output : P → TwistMsg
    pub get_armstate_change_request : P → ArmStateChangeRequest

  pub data Sent : Type 0 where
    twist_sent : Twist → Sent
    change_asked : Request → Sent
    logged_changed logged_rejected : Sent

  pub data Incoming : Type 0 where
    command_came : ArmCommand → Incoming
    joy_came : Joy → Incoming

  module _ {P C : Type 0} (q : Teleop P C) where
    abbrev pub State : Type 0
    State = Derived (Members P (Unit {0})) Sent

    abbrev pub TeleopNode : Type 0
    TeleopNode = Node (Members P (Unit {0})) Sent

    unfoldable pub receive : List Incoming → State → State
    receive [] d = d
    receive (command_came msg ∷ rest) d =
        receive rest
          (with_process (q.update_robot_arm_command (arm_command_to_core msg) d.own.process) d)
    receive (joy_came msg ∷ rest) d =
        receive rest (with_process (q.new_joy (joy_to_core msg) d.own.process) d)

    -- `load_config` from the read of the parameter on. Nothing catches the exception.
    unfoldable pub read_calibration : Calibration C → Setup TeleopNode (Unit {0})
    read_calibration missing = call_process (q.init q.default_calibration)
    read_calibration not_a_struct = failed
    read_calibration bad_struct = λ n. crashed
    read_calibration (struct c) = call_process (q.init c)

    unfoldable pub load_config : Calibration C → (Text × Text × Text) → Setup TeleopNode (Unit {0})
    load_config calibration ids = do path ← config_path ids; read_calibration calibration

    -- The block on "operation_mode": a missing one is set to RUN, and one with another name than
    -- RUN and TEST leaves the mode and the status, which is true here.
    unfoldable pub choose_mode : Option Text → P → P × Bool
    choose_mode none x = q.set_operation_mode q.mode_run x
    choose_mode (some mode) x =
        if text_eq mode (text "RUN")
        then q.set_operation_mode q.mode_run x
        else if text_eq mode (text "TEST")
        then q.set_operation_mode q.mode_joy_test x
        else (x, true)

    -- `init`. The client of the service makes no topic.
    unfoldable pub set_up : Calibration C → (Text × Text × Text) → Setup TeleopNode (Unit {0})
    set_up calibration ids = do
      call_base_init
      load_config calibration ids
      mode ← gets (λ n. p.param_text (n.base.node_name ++ text "/operation_mode"))
      call_process (choose_mode mode)
      call_diagnostics q.common
      subscribe (text "/arm_command")
      joy ← own_text (text "/topic_joystick_command")
      throttle ← own_text (text "/topic_command_throttle")
      subscribe joy
      advertise (text "geometry_msgs/Twist") throttle
      change (show_ready q.common)

    unfoldable pub run_loop1 : Base → State → State × Bool
    run_loop1 b d = (update_process q.common d, true)

    unfoldable pub run_loop2 : Base → State → State × Bool
    run_loop2 b d =
        let x = d.own.process in
        if (q.common.get_ready_to_arm x).ready_to_arm
        then (emit (sent (twist_sent (twist_to_ros (q.get_twist_output x)))) d, true)
        else (d, true)

    -- `answer` is what `armstate_change_client.call` gives for the request, `none` if the call
    -- fails; the code tests only whether it failed.
    unfoldable pub run_10hz : (Request → Option Response) → Base → State → State × Bool
    run_10hz answer b d =
        let d1 = show_ready q.common d in
        let request = q.get_armstate_change_request d.own.process in
        if request.requested_armed_state == q.armed_unknown
        then (d1, true)
        else (let req = request_to_ros request in
            let d2 = emit (sent (change_asked req)) d1 in
            (
              elim (answer req) [
                | some response ↦ emit (sent logged_changed) d2
                | none ↦ emit (sent logged_rejected) d2
              ],
              true,
            ))

    unfoldable pub teleop_program :
        Calibration C
        → (Text × Text × Text)
        → (ℕ → List Incoming)
        → (ℕ → Request → Option Response)
        → State
        → Program (Members P (Unit {0})) Sent
    teleop_program calibration ids arrivals answers constructed = record {
      constructed = constructed;
      init = λ n. result (set_up calibration ids n);
      methods = record {
        start = start;
        run_100hz = quiet;
        run_10hz = λ b d. run_10hz (answers d.reads) b d;
        run_1hz = take_diagnostics q.common;
        run_01hz = give_diagnostics q.common;
        run_001hz = quiet;
        run_loop1 = run_loop1;
        run_loop2 = run_loop2;
        run_loop3 = quiet;
        spin_once = λ b d. receive (arrivals d.reads) d;
      };
      stop = set_running false;
    }
