-- ===== src/Core.antt =====
-- Messages of the core library (`fast::rf::messages::InfrastructureMsgs`, not in this repository),
-- by the members that the nodes use. An enumerator is its value; a cast to `uint8_t` keeps it
-- modulo 256.
use robot_framework_ros.Prelude.{Text, ℕ, ◌%◌, Bool}

pub record DiagnosticMsg : Type 0 where
  pub system_id : ℕ
  pub subsystem_id : ℕ
  pub process_id : ℕ
  pub diagnostic_type : ℕ
  pub level : ℕ
  pub diagnostic_message : ℕ
  pub description : Text

pub record ReadyToArmStatusMsg : Type 0 where
  pub system_id : ℕ
  pub subsystem_id : ℕ
  pub process_id : ℕ
  pub ready_to_arm : Bool

pub record ArmCommandMsg : Type 0 where
  pub armed_state : ℕ

pub record ArmStateChangeRequest : Type 0 where
  pub requested_armed_state : ℕ

pub record ArmStateChangeResponse : Type 0 where
  pub current_armed_state : ℕ
  pub request_approved : Bool

-- `(uint8_t)` of an enumerator.
abbrev pub to_byte : ℕ → ℕ
to_byte e = e % 256
