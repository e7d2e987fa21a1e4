-- ===== src/BaseNode/Init.antt =====
-- `base_init` of core/BaseNode/BaseNode.cpp. The result of `Logger::init` is only logged; the level
-- and the name that it gets are the output `logger_started`.
pub mod Outcome
use robot_framework_ros.Prelude.{
  if◌then◌else◌, Text, text, text_eq, ℕ, Bool, true, false, Option, none, some, ◌++◌,
}
use robot_framework_ros.Platform.{Platform}
use robot_framework_ros.Messages.{state_initializing}
use robot_framework_ros.BaseNode.State.{
  Base, UserLoop, Derived, Node, emit, advertised, logger_started,
}
use robot_framework_ros.BaseNode.Namespace.{validate_robotnamespace}
use robot_framework_ros.BaseNode.Names.{read_robotnamespace}
use robot_framework_ros.BaseNode.Lifecycle.{request_node_statechange}

module _ ⦃p : Platform⦄ where
  -- The ladder over `verbosity_level`; `none` is "Unsupported Logger Verbosity".
  unfoldable pub verbosity : Text → Option ℕ
  verbosity s =
      if text_eq s (text "DEBUG")
      then some p.level_debug
      else if text_eq s (text "INFO")
      then some p.level_info
      else if text_eq s (text "NOTICE")
      then some p.level_notice
      else if text_eq s (text "WARN")
      then some p.level_warn
      else if text_eq s (text "ERROR")
      then some p.level_error
      else if text_eq s (text "FATAL")
      then some p.level_fatal
      else none

  unfoldable pub logger_level : Text → Option ℕ
  logger_level node_name = elim (p.param_text (node_name ++ text "/verbosity_level")) [
    | none ↦ some p.level_notice
    | some s ↦ verbosity s
  ]

  -- The block for one user loop; a missing parameter leaves the rate as it is.
  unfoldable pub load_rate : Text → p.Real → UserLoop → UserLoop
  load_rate param max_rate u = elim (p.param_real param) [
    | none ↦ record u { enabled = false }
    | some rate ↦ record { rate = if p.less max_rate rate then max_rate else rate; enabled = true }
  ]

  abbrev pub set_robotnamespace : Text → Base → Base
  set_robotnamespace name b = record b { robot_namespace = validate_robotnamespace name }

  unfoldable pub load_rates : Base → Base
  load_rates b = record b {
    user1 = load_rate (b.node_name ++ text "/loop1_rate") b.max_rate b.user1;
    user2 = load_rate (b.node_name ++ text "/loop2_rate") b.max_rate b.user2;
    user3 = load_rate (b.node_name ++ text "/loop3_rate") b.max_rate b.user3;
  }

  module _ {U E : Type 0} where
    unfoldable pub advertise_all : Base → Derived U E → Derived U E
    advertise_all b d =
        let d' =
          emit
            (advertised (text "robot_framework_ros/diagnostic") (b.node_name ++ text "/diagnostic"))
            (emit
              (advertised (text "robot_framework_ros/heartbeat") (b.node_name ++ text "/heartbeat"))
              d) in
        if b.ready_to_arm_publish_enabled
        then emit
            (advertised (text "robot_framework_ros/ready_to_arm")
              (b.node_name ++ text "/ready_to_arm"))
            d'
        else d'

    -- The part of `base_init` after the logger's level is known.
    unfoldable pub finish_init : ℕ → Base → Derived U E → Node U E
    unfolding load_rates load_rate advertise_all
    finish_init level b d =
        let named = set_robotnamespace read_robotnamespace b in
        record {
          base = load_rates named;
          derived = advertise_all named (emit (logger_started level b.node_name) d);
        }

    unfoldable pub base_init : Node U E → Node U E × Bool
    unfolding finish_init
    base_init n =
        let (b, status) = request_node_statechange n.base state_initializing false in
        let named = record b {
          node_namespace = p.this_node_namespace;
          node_name = p.this_node_name;
        } in
        if status
        then (elim (logger_level p.this_node_name) [
          | none ↦ (record n { base = named }, false)
          | some level ↦ (finish_init level named n.derived, true)
        ])
        else (record n { base = b }, false)
