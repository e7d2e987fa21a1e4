-- ===== src/Translate/Infrastructure.antt =====
-- TranslateUtilityInfrastructureMsgs.cpp. `to_core` and `to_ros` are the overloads of `convert`; a
-- member that the code leaves alone has the value that the generated constructor gives it.
use robot_framework_ros.Prelude.{[]}
use robot_framework_ros.Core.{
  DiagnosticMsg, ReadyToArmStatusMsg, ArmCommandMsg, ArmStateChangeRequest, ArmStateChangeResponse,
  to_byte,
}
use robot_framework_ros.Platform.{Platform}
use robot_framework_ros.Messages.{Diagnostic, ReadyToArm, ArmCommand, Request, Response}

module _ ⦃p : Platform⦄ where
  unfoldable pub diagnostic_to_core : Diagnostic → DiagnosticMsg
  diagnostic_to_core msg = record {
    system_id = msg.system_id;
    subsystem_id = msg.subsystem_id;
    process_id = msg.process_id;
    diagnostic_type = msg.diagnostic_type;
    level = msg.level;
    diagnostic_message = msg.diagnostic_message;
    description = msg.description;
  }

  unfoldable pub diagnostic_to_ros : DiagnosticMsg → Diagnostic
  diagnostic_to_ros data' = record {
    stamp = p.zero_time;
    node_name = [];
    system_id = data'.system_id;
    subsystem_id = data'.subsystem_id;
    process_id = data'.process_id;
    diagnostic_type = to_byte data'.diagnostic_type;
    level = to_byte data'.level;
    diagnostic_message = to_byte data'.diagnostic_message;
    description = data'.description;
  }

  unfoldable pub ready_to_arm_to_core : ReadyToArm → ReadyToArmStatusMsg
  ready_to_arm_to_core msg = record {
    system_id = msg.system_id;
    subsystem_id = msg.subsystem_id;
    process_id = msg.process_id;
    ready_to_arm = msg.ready_to_arm;
  }

  unfoldable pub ready_to_arm_to_ros : ReadyToArmStatusMsg → ReadyToArm
  ready_to_arm_to_ros msg = record {
    stamp = p.zero_time;
    node_name = [];
    system_id = msg.system_id;
    subsystem_id = msg.subsystem_id;
    process_id = msg.process_id;
    ready_to_arm = msg.ready_to_arm;
  }

unfoldable pub arm_command_to_core : ArmCommand → ArmCommandMsg
arm_command_to_core msg = record { armed_state = msg.armed_state.state }

unfoldable pub arm_command_to_ros : ArmCommandMsg → ArmCommand
arm_command_to_ros msg = record { armed_state = record { state = to_byte msg.armed_state } }

unfoldable pub request_to_core : Request → ArmStateChangeRequest
request_to_core req = record { requested_armed_state = req.requested_armed_state.state }

unfoldable pub request_to_ros : ArmStateChangeRequest → Request
request_to_ros req = record {
  requested_armed_state = record { state = to_byte req.requested_armed_state };
}

unfoldable pub response_to_core : Response → ArmStateChangeResponse
response_to_core resp = record {
  current_armed_state = resp.current_armed_state.state;
  request_approved = resp.request_approved;
}

unfoldable pub response_to_ros : ArmStateChangeResponse → Response
response_to_ros resp = record {
  current_armed_state = record { state = to_byte resp.current_armed_state };
  request_approved = resp.request_approved;
}
