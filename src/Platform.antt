-- ===== src/Platform.antt =====
-- What the nodes take from outside the repository: `double` arithmetic, `ros::Time`, the parameter
-- server, the names that ROS gives the node, and constants of the core library.
use robot_framework_ros.Prelude.{Text, ℕ, Bool, Option, List}
use robot_framework_ros.Core.{DiagnosticMsg, ReadyToArmStatusMsg}

pub record Platform : Type 1 where
  -- `double`; `decimal n k` is the literal with value n / 10^k.
  pub Real : Type 0
  pub decimal : ℕ → ℕ → Real
  pub negate : Real → Real
  pub of_count : ℕ → Real
  pub add : Real → Real → Real
  pub sub : Real → Real → Real
  pub mul : Real → Real → Real
  pub div : Real → Real → Real
  pub less : Real → Real → Bool
  pub at_most : Real → Real → Bool
  -- `(float) x`, as a `double` again.
  pub to_float : Real → Real
  -- `(uint16_t) x`, `std::to_string(x)` and `sprintf` of x with two decimals.
  pub truncate : Real → ℕ
  pub to_string : Real → Text
  pub two_decimals : Real → Text
  -- `ros::Time`; `now n` is what the n-th call of `ros::Time::now()` returns.
  pub Time : Type 0
  pub now : ℕ → Time
  pub zero_time : Time
  pub to_sec : Time → Real
  pub of_sec : Real → Time
  -- `ros::this_node` and the node handle.
  pub this_node_name : Text
  pub this_node_namespace : Text
  pub unresolved_namespace : Text
  -- `n->getParam(name, value)`, by the type of `value`; `none` is the result `false`.
  pub param_text : Text → Option Text
  pub param_texts : Text → Option (List Text)
  pub param_real : Text → Option Real
  pub param_reals : Text → Option (List Real)
  -- `fast::rf::Level`, `DiagnosticType` and `DiagnosticMessage`, by their values.
  pub level_unknown : ℕ
  pub level_noerror : ℕ
  pub level_debug : ℕ
  pub level_info : ℕ
  pub level_notice : ℕ
  pub level_warn : ℕ
  pub level_error : ℕ
  pub level_fatal : ℕ
  pub type_timing : ℕ
  pub type_software : ℕ
  pub message_failed : ℕ
  pub message_noerror : ℕ
  pub message_initializing : ℕ
  -- Constructors of the core messages.
  pub default_diagnostic : DiagnosticMsg
  pub make_diagnostic : ℕ → ℕ → ℕ → ℕ → DiagnosticMsg
  pub default_ready_to_arm : ReadyToArmStatusMsg
  -- What the core messages hold beside the members that the conversions carry, and what their
  -- constructors give it: `seq` of `ImuMsg`, `pose` of `OdomMsg`, and the other members of `OdomMsg`
  -- and of its `twist`.
  pub default_seq : ℕ
  pub CorePose : Type 0
  pub default_pose : CorePose
  pub OdomRest : Type 0
  pub default_odom_rest : OdomRest
  -- tf2: roll, pitch and yaw of a quaternion x y z w, and the way back.
  pub get_rpy : Real → Real → Real → Real → Real × Real × Real
  pub set_rpy : Real → Real → Real → Real × Real × Real × Real
  -- What an array on the stack holds before it is written.
  pub uninitialised : ℕ → Real
  -- `KEY_UP` and `KEY_DOWN` of curses.
  pub key_up : ℕ
  pub key_down : ℕ
