-- ===== src/Tests/Bench.antt =====
-- A platform on which everything computes: numbers are thousandths, and the n-th reading of the
-- clock is n seconds.
use robot_framework_ros.Prelude.{
  ltb, leb, ◌==◌, if◌then◌else◌, Text, text, has_piece, ℕ, ◌+◌, ◌-◌, ◌*◌, ◌/◌, ◌^◌, true, false,
  Option, none, some, [], ◌∷◌,
}
use robot_framework_ros.Core.{DiagnosticMsg}
use robot_framework_ros.Platform.{Platform}
use robot_framework_ros.BaseNode.State.{Derived, Node}

abbrev pub blank_diagnostic : DiagnosticMsg
blank_diagnostic = record {
  system_id = 0;
  subsystem_id = 0;
  process_id = 0;
  diagnostic_type = 0;
  level = 0;
  diagnostic_message = 0;
  description = [];
}

abbrev divide : ℕ → ℕ → ℕ
divide a b = if b == 0 then 0 else a * 1000 / b

abbrev a_param : Text → Option Text
a_param name =
    if has_piece (text "robot_namespace") name
    then some (text "test//robot")
    else if has_piece (text "output_file_path") name
    then some (text "/tmp/joystick")
    else if has_piece (text "topic_") name
    then some (text "topic")
    else none

instance abbrev pub bench : Platform
bench = record {
  Real = ℕ;
  decimal = λ n k. n * 1000 / 10 ^ k;
  negate = λ a. 0;
  of_count = λ n. n * 1000;
  add = λ a b. a + b;
  sub = λ a b. a - b;
  mul = λ a b. a * b / 1000;
  div = divide;
  less = ltb;
  at_most = leb;
  to_float = λ a. a / 10 * 10;
  truncate = λ a. a / 1000;
  to_string = λ a. text "x";
  two_decimals = λ a. text "1.00";
  Time = ℕ;
  now = λ n. n * 1000;
  zero_time = 0;
  to_sec = λ t. t;
  of_sec = λ t. t;
  this_node_name = text "/test/node";
  this_node_namespace = text "/test";
  unresolved_namespace = text "~";
  param_text = a_param;
  param_texts = λ name. some (text "left" ∷ text "right" ∷ []);
  param_real = λ name. some 900000;
  param_reals = λ name. some (1 ∷ 0 ∷ 0 ∷ 0 ∷ 1 ∷ 0 ∷ 0 ∷ 0 ∷ 1 ∷ []);
  level_unknown = 0;
  level_noerror = 1;
  level_debug = 2;
  level_info = 3;
  level_notice = 4;
  level_warn = 5;
  level_error = 6;
  level_fatal = 7;
  type_timing = 9;
  type_software = 2;
  message_failed = 4;
  message_noerror = 1;
  message_initializing = 2;
  default_diagnostic = blank_diagnostic;
  make_diagnostic = λ s b x kind. record {
    system_id = s;
    subsystem_id = b;
    process_id = x;
    diagnostic_type = kind;
    level = 0;
    diagnostic_message = 0;
    description = [];
  };
  default_ready_to_arm = record {
    system_id = 0;
    subsystem_id = 0;
    process_id = 0;
    ready_to_arm = false;
  };
  default_seq = 0;
  CorePose = ℕ;
  default_pose = 0;
  OdomRest = ℕ;
  default_odom_rest = 0;
  get_rpy = λ x y z w. (x, y, z);
  set_rpy = λ r q y. (r, q, y, 0);
  uninitialised = λ n. 7;
  key_up = 259;
  key_down = 258;
}

abbrev pub Small : Type 0
Small = Unit {0}

abbrev pub blank : Derived Small Small
blank = record {
  diagnostics = blank_diagnostic ∷ [];
  ready_to_arm = bench.default_ready_to_arm;
  own = tt;
  reads = 1;
  outbox = [];
}

-- A node in a state, with a timing diagnostic, whose loop3 ran seven times.
abbrev pub node_in : ℕ → Node Small Small
node_in s = record {
  base = record {
    start_time = 0;
    ready_to_arm_publish_enabled = true;
    node_state = record { state = s };
    node_namespace = text "/test";
    node_name = text "/test/node";
    robot_namespace = text "/test/";
    user1 = record { rate = 1000; enabled = true };
    user2 = record { rate = 1000; enabled = false };
    user3 = record { rate = 14000; enabled = true };
    ros_rate = 4000000;
    max_rate = 400000;
    timers = record {
      hz100 = record { last = 0; cycles = 0 };
      hz10 = record { last = 0; cycles = 0 };
      hz1 = record { last = 0; cycles = 0 };
      hz01 = record { last = 0; cycles = 0 };
      hz001 = record { last = 0; cycles = 0 };
      first = record { last = 0; cycles = 0 };
      second = record { last = 0; cycles = 0 };
      third = record { last = 0; cycles = 7 };
    };
    base_diagnostics = (9, blank_diagnostic) ∷ [];
  };
  derived = blank;
}
