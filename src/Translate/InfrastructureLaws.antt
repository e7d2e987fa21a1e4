-- ===== src/Translate/InfrastructureLaws.antt =====
-- What survives a conversion of an infrastructure message and back.
use robot_framework_ros.Prelude.{◌<◌, ◌≡◌, arith}
use robot_framework_ros.Core.{DiagnosticMsg}
use robot_framework_ros.Platform.{Platform}
use robot_framework_ros.Translate.Infrastructure.{diagnostic_to_core, diagnostic_to_ros}

-- The members that a `uint8` of the message can hold.
pub record IsByteDiagnostic (d : DiagnosticMsg) : Type 0 where
  pub type_lt : d.diagnostic_type < 256
  pub level_lt : d.level < 256
  pub message_lt : d.diagnostic_message < 256

module _ ⦃p : Platform⦄ where
  -- A core diagnostic whose type, level and message each fit in a byte comes back from the
  -- conversion to ROS and back unchanged.
  pub diagnostic_to_core-to_ros :
      (d : DiagnosticMsg) → IsByteDiagnostic d → diagnostic_to_core (diagnostic_to_ros d) ≡ d
  unfolding diagnostic_to_core diagnostic_to_ros
  diagnostic_to_core-to_ros d h = ground arith
