-- ===== src/Nodes/TrajectoryController/Commands.antt =====
-- What the trajectory controller publishes, and what the tank drive makes of it.
use robot_framework_ros.Prelude.{
  Option-cases, Text, ℕ, ◌≡◌, refl, ap, inl, inr, some, List, [], ◌∷◌,
}
use robot_framework_ros.Platform.{Platform}
use robot_framework_ros.Translate.Geometry.{TwistMsg, twist_to_core, twist_to_ros}
use robot_framework_ros.Translate.Standard.{vector_to_core, vector_to_ros}
use robot_framework_ros.BaseNode.State.{Base}
use robot_framework_ros.BaseNode.Run.Outbox.{All, AllSent, messages, emit-AllSent}
use robot_framework_ros.Nodes.Process.{quiet, with_process, update_process}
use robot_framework_ros.BaseNode.Run.{run_main}
use robot_framework_ros.BaseNode.Run.Invariants.{OfExit}
use robot_framework_ros.Nodes.Program.{process_program-kept}
use robot_framework_ros.Nodes.Setup.Silent.{
  IsSilent, ◌▶◌, show_ready-IsSilent, own_text-IsSilent, advertise-IsSilent, subscribe-IsSilent,
  call_base_init-IsSilent, call_process-IsSilent, call_diagnostics-IsSilent, config_path-IsSilent,
  real_at-IsSilent, passed-IsSilent,
}
use robot_framework_ros.Nodes.TrajectoryController.{
  Trajectory, State, Sent, command_sent, Incoming, desired_came, pose_came, receive, load_config,
  set_up, run_loop1, controller_program,
}
use robot_framework_ros.Nodes.TankDriveExecutor.{Tank, twist_callback}

module _ ⦃p : Platform⦄ where
  twist_to_core-to_ros : (msg : TwistMsg) → twist_to_core (twist_to_ros msg) ≡ msg
  unfolding twist_to_core twist_to_ros vector_to_core vector_to_ros
  twist_to_core-to_ros msg = refl

  module _ {P D C T B : Type 0} (q : Trajectory P D C) (tank : Tank T B) where
    set_up-IsSilent : (ids : Text × Text × Text) → IsSilent (set_up q ids)
    unfolding set_up load_config
    set_up-IsSilent ids = call_base_init-IsSilent ▶ λ _. call_process-IsSilent _ ▶ λ _.
        (config_path-IsSilent _ ▶ λ path. real_at-IsSilent _ ▶ λ max_output.
        real_at-IsSilent _ ▶ λ min_output. real_at-IsSilent _ ▶ λ k_p. real_at-IsSilent _ ▶ λ k_i.
        real_at-IsSilent _ ▶ λ k_d.
        real_at-IsSilent _ ▶ λ sensor_scale. passed-IsSilent _ ▶ λ config. call_process-IsSilent _)
        ▶ λ _. own_text-IsSilent _ ▶ λ pose. call_diagnostics-IsSilent _ ▶ λ _.
            subscribe-IsSilent _ ▶ λ _. own_text-IsSilent _ ▶ λ desired_command.
            subscribe-IsSilent _ ▶ λ _. own_text-IsSilent _ ▶ λ command.
            advertise-IsSilent _ _ ▶ λ _. show_ready-IsSilent q.common

    -- A message that carries a command of the controller's process to the process of a tank drive.
    abbrev pub Carries : Sent → Type 0
    Carries (command_sent t) =
        (x : P) × (msg : TwistMsg) × ((q.get_command x).1 ≡ some msg)
        × ((y : T) → twist_callback tank t y ≡ tank.new_cmd msg y)

    receive-outbox : (msgs : List Incoming) (d : State q) → (receive q msgs d).outbox ≡ d.outbox
    unfolding receive
    receive-outbox [] d = refl
    receive-outbox (desired_came msg ∷ rest) d = receive-outbox rest _
    receive-outbox (pose_came msg ∷ rest) d = receive-outbox rest _

    run_loop1-kept :
        (b : Base) (d : State q) → AllSent Carries d → AllSent Carries (run_loop1 q b d).0
    unfolding run_loop1
    run_loop1-kept b d h =
        let d1 = update_process q.common d in
        let (x, new_command) = q.get_command d1.own.process in
        let d2 : State q = with_process x d1 in
        elim (Option-cases new_command) [
          | inl e ↦ rw (e, run_loop1) h
          | inr (msg, e) ↦
              rw (e, run_loop1)
                (emit-AllSent Carries d2 (command_sent (twist_to_ros msg)) h (
                  d1.own.process,
                  msg,
                  e,
                  λ y. ap (λ m. tank.new_cmd m y) (twist_to_core-to_ros msg),
                ))
        ]

    -- However long the trajectory controller runs, from a node that has published nothing: each
    -- velocity command that it has published is one that its process gave, and the callback of a
    -- tank drive that receives it hands exactly that command to its own process.
    pub controller_program-Carries :
        (ids : Text × Text × Text) (arrivals : ℕ → List Incoming) (constructed : State q)
        (rounds : ℕ)
        → constructed.outbox ≡ []
        → OfExit (AllSent Carries) (run_main (controller_program q ids arrivals constructed) rounds)
    unfolding controller_program messages
    controller_program-Carries ids arrivals constructed rounds e =
        process_program-kept q.common (set_up q ids) (run_loop1 q) quiet _ constructed (All Carries)
          (set_up-IsSilent ids) run_loop1-kept (λ b d h. h)
          (λ d h. rw (receive-outbox (arrivals d.reads) d) h) (rw e tt) rounds
