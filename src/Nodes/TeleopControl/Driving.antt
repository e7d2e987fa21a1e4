-- ===== src/Nodes/TeleopControl/Driving.antt =====
-- The start of the teleop node, and when it drives.
use robot_framework_ros.Prelude.{
  ◌==◌, Bool-cases, Option-cases, Text, ℕ, ◌≡◌, refl, inl, inr, true, Option, List, [], ◌∷◌,
}
use robot_framework_ros.Platform.{Platform}
use robot_framework_ros.Messages.{Request, Response}
use robot_framework_ros.Translate.Infrastructure.{request_to_ros}
use robot_framework_ros.Translate.Geometry.{twist_to_ros}
use robot_framework_ros.BaseNode.State.{
  Base, emit, sent, set_diagnostics, set_ready_to_arm, new_base,
}
use robot_framework_ros.BaseNode.Run.{run_main}
use robot_framework_ros.BaseNode.Run.Invariants.{OfExit, base_start-kept, run_main-kept}
use robot_framework_ros.BaseNode.Run.Outbox.{
  All, AllSent, messages, emit-AllSent, messages-IsUndisturbed,
}
use robot_framework_ros.Nodes.Process.{start, take_diagnostics, give_diagnostics, show_ready}
use robot_framework_ros.Nodes.Program.{GoesOn}
use robot_framework_ros.Nodes.Setup.Leads.{Leads, ◌▷◌}
use robot_framework_ros.Nodes.Setup.Ready.{
  own_text-At, Stage, fresh, ready, At, change-At, advertise-At, subscribe-At, gets-At,
  call_base_init-At, call_process-At, call_diagnostics-At, config_path-At, prepared-goes_on,
}
use robot_framework_ros.Nodes.Setup.Silent.{
  IsSilent, ◌▶◌, gets-IsSilent, show_ready-IsSilent, own_text-IsSilent, advertise-IsSilent,
  subscribe-IsSilent, call_base_init-IsSilent, call_process-IsSilent, call_diagnostics-IsSilent,
  config_path-IsSilent, result-OfInit,
}
use robot_framework_ros.Nodes.TeleopControl.{
  Teleop, Calibration, missing, not_a_struct, bad_struct, struct, read_calibration, load_config,
  State, Sent, twist_sent, change_asked, logged_changed, logged_rejected, Incoming, command_came,
  joy_came, receive, set_up, run_loop1, run_loop2, run_10hz, teleop_program,
}

module _ ⦃p : Platform⦄ {P C : Type 0} (q : Teleop P C) where
  read_calibration-At : {s : Stage} (c : Calibration C) → Leads (At s) (read_calibration q c) (At s)
  unfolding read_calibration
  read_calibration-At missing = call_process-At _
  read_calibration-At not_a_struct = record { leads = λ n x. tt }
  read_calibration-At bad_struct = record { leads = λ n x. tt }
  read_calibration-At (struct c) = call_process-At _

  read_calibration-IsSilent : (c : Calibration C) → IsSilent (read_calibration q c)
  unfolding read_calibration
  read_calibration-IsSilent missing = call_process-IsSilent _
  read_calibration-IsSilent not_a_struct = record { silent = λ n. refl }
  read_calibration-IsSilent bad_struct = record { silent = λ n. tt }
  read_calibration-IsSilent (struct c) = call_process-IsSilent _

  load_config-At :
      {s : Stage} (c : Calibration C) (ids : Text × Text × Text)
      → Leads (At s) (load_config q c ids) (At s)
  unfolding load_config
  load_config-At c ids = config_path-At ids ▷ λ path. read_calibration-At c

  load_config-IsSilent :
      (c : Calibration C) (ids : Text × Text × Text) → IsSilent (load_config q c ids)
  unfolding load_config
  load_config-IsSilent c ids = config_path-IsSilent ids ▶ λ path. read_calibration-IsSilent c

  set_up-At :
      (c : Calibration C) (ids : Text × Text × Text) → Leads (At fresh) (set_up q c ids) (At ready)
  unfolding set_up
  set_up-At c ids = call_base_init-At ▷ λ _. load_config-At c ids ▷ λ _. gets-At _ ▷ λ mode.
      call_process-At _ ▷ λ _. call_diagnostics-At _ ▷ λ _. subscribe-At _ ▷ λ _.
      own_text-At _ ▷ λ joy.
      own_text-At _ ▷ λ throttle. subscribe-At _ ▷ λ _. advertise-At _ _ ▷ λ _. change-At _

  set_up-IsSilent : (c : Calibration C) (ids : Text × Text × Text) → IsSilent (set_up q c ids)
  unfolding set_up
  set_up-IsSilent c ids = call_base_init-IsSilent ▶ λ _. load_config-IsSilent c ids ▶ λ _.
      gets-IsSilent _ ▶ λ mode. call_process-IsSilent _ ▶ λ _. call_diagnostics-IsSilent _ ▶ λ _.
      subscribe-IsSilent _ ▶ λ _. own_text-IsSilent _ ▶ λ joy. own_text-IsSilent _ ▶ λ throttle.
      subscribe-IsSilent _ ▶ λ _. advertise-IsSilent _ _ ▶ λ _. show_ready-IsSilent q.common

  -- A velocity command that the process gave in a state in which it was ready to arm, or a message
  -- of another kind.
  abbrev pub IsReadyTwist : Sent → Type 0
  IsReadyTwist (twist_sent t) =
      (x : P) × ((q.common.get_ready_to_arm x).ready_to_arm ≡ true)
      × (t ≡ twist_to_ros (q.get_twist_output x))
  IsReadyTwist _ = Unit

  receive-outbox : (msgs : List Incoming) (d : State q) → (receive q msgs d).outbox ≡ d.outbox
  unfolding receive
  receive-outbox [] d = refl
  receive-outbox (command_came msg ∷ rest) d = receive-outbox rest _
  receive-outbox (joy_came msg ∷ rest) d = receive-outbox rest _

  abbrev DrivesReady : State q → Type 0
  DrivesReady d = AllSent IsReadyTwist d

  run_loop2-kept : (b : Base) (d : State q) → DrivesReady d → DrivesReady (run_loop2 q b d).0
  unfolding run_loop2
  run_loop2-kept b d h =
      let x = d.own.process in
      elim (Bool-cases (q.common.get_ready_to_arm x).ready_to_arm) [
        | inl e ↦ rw e (
            emit-AllSent IsReadyTwist d (twist_sent (twist_to_ros (q.get_twist_output x))) h
              (x, e, refl))
        | inr e ↦ rw e h
      ]

  run_10hz-kept :
      (answer : Request → Option Response) (b : Base) (d : State q)
      → DrivesReady d
      → DrivesReady (run_10hz q answer b d).0
  unfolding run_10hz set_ready_to_arm
  run_10hz-kept answer b d h =
      let request = q.get_armstate_change_request d.own.process in
      let req = request_to_ros request in
      let d1 : State q = show_ready q.common d in
      let d2 : State q = emit (sent (change_asked req)) d1 in
      let asked = emit-AllSent IsReadyTwist d1 (change_asked req) h tt in
      elim (Bool-cases (request.requested_armed_state == q.armed_unknown)) [
        | inl same ↦ rw (same, run_10hz) h
        | inr other ↦ elim (Option-cases (answer req)) [
          | inl e ↦ rw (other, run_10hz, e) (emit-AllSent IsReadyTwist d2 logged_rejected asked tt)
          | inr (response, e) ↦
              rw (other, run_10hz, e) (emit-AllSent IsReadyTwist d2 logged_changed asked tt)
        ]
      ]

  module _ (calibration : Calibration C) (ids : Text × Text × Text) (arrivals : ℕ → List Incoming)
      (answers : ℕ → Request → Option Response) (constructed : State q) where
    -- When `init` of the teleop node succeeds, `start` succeeds and no `update` returns false,
    -- whatever the service answers.
    pub teleop_program-GoesOn :
        GoesOn (teleop_program q calibration ids arrivals answers constructed)
    unfolding teleop_program
    teleop_program-GoesOn n n' rounds e =
        prepared-goes_on (set_up q calibration ids)
          (teleop_program q calibration ids arrivals answers constructed).methods n n' rounds
          (set_up-At calibration ids) (λ x. refl) e

    -- However long the teleop node runs, from a node that has published nothing, and whatever the
    -- joystick and the service do: each velocity command that it has published is the output of the
    -- process in a state in which the process was ready to arm.
    pub teleop_program-AllSent :
        (rounds : ℕ)
        → constructed.outbox ≡ []
        → OfExit
            (AllSent IsReadyTwist)
            (run_main (teleop_program q calibration ids arrivals answers constructed) rounds)
    unfolding teleop_program run_loop1 start take_diagnostics give_diagnostics set_diagnostics
        messages
    teleop_program-AllSent rounds e =
        let u = messages-IsUndisturbed (λ _ es. All IsReadyTwist es) in
        run_main-kept (AllSent IsReadyTwist) u
          (teleop_program q calibration ids arrivals answers constructed) rounds
          (result-OfInit (All IsReadyTwist) _ _
            ((set_up-IsSilent calibration ids).silent
              (record { base = new_base; derived = constructed }))
            (rw e tt))
          (λ n h. base_start-kept (AllSent IsReadyTwist) u _ h)
          (record {
            run_100hz = λ b d h. h;
            run_10hz = λ b d h. run_10hz-kept (answers d.reads) b d h;
            run_1hz = λ b d h. h;
            run_01hz = λ b d h. h;
            run_001hz = λ b d h. h;
            run_loop1 = λ b d h. h;
            run_loop2 = run_loop2-kept;
            run_loop3 = λ b d h. h;
            spin_once = λ b d h. rw (receive-outbox (arrivals d.reads) d) h;
          })
          (λ d h. h)
