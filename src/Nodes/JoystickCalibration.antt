-- ===== src/Nodes/JoystickCalibration.antt =====
-- `JoystickCalibrationNode` of
-- Systems/UserInterface/Subsystems/RemoteControl/Nodes/TeleopControl/JoystickCalibration. The class
-- `JoystickCalibrationData` is the core library's, by its members; the file that the node writes is
-- the output `written`.
pub mod Bounds
pub mod Start
use robot_framework_ros.Prelude.{
  if◌then◌else◌, Text, text, ℕ, Bool, true, false, not, Option, none, some, List, [], ◌∷◌, ◌++◌,
}
use robot_framework_ros.Platform.{Platform}
use robot_framework_ros.BaseNode.State.{Base, Derived, Node, sent, emit, subscribed}
use robot_framework_ros.BaseNode.Names.{get_config_path}
use robot_framework_ros.BaseNode.Init.{base_init}
use robot_framework_ros.BaseNode.Lifecycle.{base_start}
use robot_framework_ros.BaseNode.Run.{Program}

module _ ⦃p : Platform⦄ where
  -- One axis of `JoystickCalibrationData`.
  pub record Axis : Type 0 where
    pub deadband : p.Real
    pub least : p.Real
    pub most : p.Real

  pub record Calibration : Type 0 where
    pub x : Axis
    pub y : Axis
    pub throttle : Axis

  -- The members of the node. `opened` is the path that `output_config_fd` is open for.
  pub record Joystick : Type 0 where
    pub running : Bool
    pub calibration_data : Calibration
    pub opened : Option Text

  pub data Sent : Type 0 where
    written printed : Calibration → Sent

  -- The two ifs for one axis.
  unfoldable pub widen : p.Real → Axis → Axis
  widen v a =
      let a' = if p.less a.most v then record a { most = v } else a in
      if p.less v a'.least then record a' { least = v } else a'

  -- `joy_Callback` for the axes of the message.
  unfoldable pub joy_callback : List p.Real → Calibration → Calibration
  joy_callback (x ∷ y ∷ t ∷ more) c = record {
    x = widen x c.x;
    y = widen y c.y;
    throttle = widen t c.throttle;
  }
  joy_callback _ c = c

  unfoldable pub joy_callbacks : List (List p.Real) → Calibration → Calibration
  joy_callbacks [] c = c
  joy_callbacks (axes ∷ rest) c = joy_callbacks rest (joy_callback axes c)

  -- `load_config`; `opens` says whether the file could be created, and an unset deadband is 0.0.
  abbrev pub deadband_of : Text → p.Real
  deadband_of name = elim (p.param_real name) [ none ↦ p.decimal 0 1 | some v ↦ v ]

  abbrev pub set_deadbands : Text → Calibration → Calibration
  set_deadbands node_name c = record {
    x = record (c.x) { deadband = deadband_of (node_name ++ text "/x_deadband") };
    y = record (c.y) { deadband = deadband_of (node_name ++ text "/y_deadband") };
    throttle = record (c.throttle) {
      deadband = deadband_of (node_name ++ text "/throttle_deadband");
    };
  }

  unfoldable pub load_config : (Text → Bool) → Base → Joystick → Joystick × Bool
  load_config opens b j = elim (p.param_text (b.node_name ++ text "/output_file_path")) [
    | none ↦ (j, false)
    | some path ↦
        let j' = record j { calibration_data = set_deadbands b.node_name j.calibration_data } in
        if opens path then (record j' { opened = some path }, true) else (j', false)
  ]

  abbrev pub JoystickNode : Type 0
  JoystickNode = Node Joystick Sent

  -- The path that `load_config` logs may end in an exception, `none` here.
  unfoldable pub init :
      (Text → Bool) → (Text × Text × Text) → JoystickNode → Option (JoystickNode × Bool)
  init opens (system, subsystem, process) n =
      let (n1, ok1) = base_init n in
      if not ok1
      then some (n1, false)
      else elim (get_config_path n1.base system subsystem process) [
        | none ↦ none
        | some path ↦
            let (j, ok2) = load_config opens n1.base n1.derived.own in
            let d = record n1.derived { own = j } in
            if not ok2
            then some (record n1 { derived = d }, false)
            else (let topic : Text =
                  elim (p.param_text (n1.base.node_name ++ text "/topic_joy_command")) [
                    | none ↦ text "/robot/joy"
                    | some t ↦ t
                  ] in
                some (
                  record n1 { derived = emit (subscribed (n1.base.robot_namespace ++ topic)) d },
                  true,
                ))
      ]

  abbrev pub quiet : Base → Derived Joystick Sent → Derived Joystick Sent × Bool
  quiet b d = (d, true)

  unfoldable pub run_10hz : Base → Derived Joystick Sent → Derived Joystick Sent × Bool
  run_10hz b d = (emit (sent (printed d.own.calibration_data)) d, true)

  abbrev pub receive : List (List p.Real) → Joystick → Joystick
  receive messages j = record j { calibration_data = joy_callbacks messages j.calibration_data }

  unfoldable pub stop : Derived Joystick Sent → Derived Joystick Sent
  stop d =
      emit (sent (written d.own.calibration_data))
        (record d { own = record (d.own) { running = false; opened = none } })

  -- The node, for the messages that each call of `spinOnce` finds.
  unfoldable pub joystick_program :
      (Text → Bool)
      → (Text × Text × Text)
      → (ℕ → List (List p.Real))
      → Derived Joystick Sent
      → Program Joystick Sent
  unfolding base_start
  joystick_program opens ids arrivals constructed = record {
    constructed = constructed;
    init = init opens ids;
    methods = record {
      start = base_start;
      run_100hz = quiet;
      run_10hz = run_10hz;
      run_1hz = quiet;
      run_01hz = quiet;
      run_001hz = quiet;
      run_loop1 = quiet;
      run_loop2 = quiet;
      run_loop3 = quiet;
      spin_once = λ b d. record d { own = receive (arrivals d.reads) d.own };
    };
    stop = stop;
  }
