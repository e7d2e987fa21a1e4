-- ===== src/Nodes/TeleopControl/Arming.antt =====
-- How the teleop node and the armed state manager agree on a change of the armed state.
use robot_framework_ros.Prelude.{
  ◌==◌, if◌then◌else◌, ==_iff, Bool-cases, ℕ, ◌<◌, ◌≡◌, refl, ap, ◌≢◌, inl, inr, true, Option, none,
  some, arith,
}
use robot_framework_ros.Platform.{Platform}
use robot_framework_ros.Messages.{Request, Response}
use robot_framework_ros.Translate.Infrastructure.{request_to_ros, request_to_core, response_to_ros}
use robot_framework_ros.BaseNode.State.{Base, sent, emit}
use robot_framework_ros.Nodes.Process.{show_ready}
use robot_framework_ros.Nodes.ArmedStateManager.{Manager, arm_statechange_service}
use robot_framework_ros.Nodes.TeleopControl.{Teleop, State, run_10hz, change_asked, logged_changed}

module _ ⦃p : Platform⦄ {P C M : Type 0} (q : Teleop P C) (manager : Manager M) where
  -- The answer of a call that reaches `arm_statechange_service` of a manager in state y: a call
  -- fails when the service returns false.
  abbrev pub answer_of : M → Request → Option Response
  answer_of y req =
      let (y', response, ok) = arm_statechange_service manager req y in
      if ok then some response else none

  -- When the process wants a change to a state that fits a byte and the call reaches the service of
  -- the manager: the manager's process gets exactly the request of the teleop process, once, and
  -- what it answers is the answer of the service; and the node asks for the change once and logs
  -- that the state was changed, whether or not the manager's process approves.
  pub run_10hz-arm_statechange_service :
      (y : M) (b : Base) (d : State q)
      → let request = q.get_armstate_change_request d.own.process in
        request.requested_armed_state < 256
        → request.requested_armed_state ≢ q.armed_unknown
        → let req = request_to_ros request in
          let (y', response) = manager.request_armstate_change request y in
          (arm_statechange_service manager req y ≡ (y', response_to_ros response, true))
          × ((run_10hz q (answer_of y) b d).0
              ≡ emit (sent logged_changed) (emit (sent (change_asked req)) (show_ready q.common d)))
  unfolding run_10hz arm_statechange_service request_to_core request_to_ros
  run_10hz-arm_statechange_service y b d small wanted =
      let request = q.get_armstate_change_request d.own.process in
      (
        ap
            (λ (s : ℕ).
              let answer =
                manager.request_armstate_change (record { requested_armed_state = s }) y in
              (answer.0, response_to_ros answer.1, true))
            (omega (arith, small)),
        elim (Bool-cases (request.requested_armed_state == q.armed_unknown)) [
          | inl same ↦
              absurd (wanted ((==_iff request.requested_armed_state q.armed_unknown).0 same))
          | inr other ↦ rw (other, run_10hz) refl
        ],
      )
