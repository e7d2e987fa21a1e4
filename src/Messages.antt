-- ===== src/Messages.antt =====
-- The messages of msg/ and srv/, as `roscpp` generates them: one member for each field.
use robot_framework_ros.Prelude.{Text, ℕ, Bool}
use robot_framework_ros.Platform.{Platform}

-- msg/nodestate.msg. The constants of the file, and the field `state`.
abbrev pub state_unknown : ℕ
state_unknown = 0

abbrev pub state_initializing : ℕ
state_initializing = 1

abbrev pub state_starting : ℕ
state_starting = 2

abbrev pub state_running : ℕ
state_running = 3

abbrev pub state_paused : ℕ
state_paused = 4

abbrev pub state_restart : ℕ
state_restart = 5

abbrev pub state_finished : ℕ
state_finished = 6

pub record Nodestate : Type 0 where
  pub state : ℕ

-- msg/armedstate.msg.
pub record Armedstate : Type 0 where
  pub state : ℕ

-- msg/arm_command.msg.
pub record ArmCommand : Type 0 where
  pub armed_state : Armedstate

-- srv/arm_state_change.srv.
pub record Request : Type 0 where
  pub requested_armed_state : Armedstate

pub record Response : Type 0 where
  pub current_armed_state : Armedstate
  pub request_approved : Bool

module _ ⦃p : Platform⦄ where
  -- msg/diagnostic.msg.
  pub record Diagnostic : Type 0 where
    pub stamp : p.Time
    pub node_name : Text
    pub system_id : ℕ
    pub subsystem_id : ℕ
    pub process_id : ℕ
    pub diagnostic_type : ℕ
    pub level : ℕ
    pub diagnostic_message : ℕ
    pub description : Text

  -- msg/heartbeat.msg.
  pub record Heartbeat : Type 0 where
    pub stamp : p.Time
    pub host_name : Text
    pub base_node_name : Text
    pub node_name : Text
    pub node_state : Nodestate

  -- msg/ready_to_arm.msg.
  pub record ReadyToArm : Type 0 where
    pub stamp : p.Time
    pub node_name : Text
    pub system_id : ℕ
    pub subsystem_id : ℕ
    pub process_id : ℕ
    pub ready_to_arm : Bool
