-- ===== src/Nodes/InertialSensorFuser/Fusion.antt =====
-- The start and the outputs of the inertial sensor fuser.
use robot_framework_ros.Prelude.{
  Option-cases, Text, ℕ, ◌≡◌, refl, inl, inr, some, List, [], ◌∷◌, ◌++◌,
}
use robot_framework_ros.Platform.{Platform}
use robot_framework_ros.Translate.Sensor.{Imu, ImuMsg, imu_to_core, imu_to_ros}
use robot_framework_ros.BaseNode.State.{sent}
use robot_framework_ros.BaseNode.Run.{run_main}
use robot_framework_ros.BaseNode.Run.Invariants.{OfExit}
use robot_framework_ros.BaseNode.Run.Outbox.{All, messages, messages-snoc}
use robot_framework_ros.Nodes.Process.{with_process, quiet}
use robot_framework_ros.Nodes.Program.{GoesOn, process_program-GoesOn, process_program-kept}
use robot_framework_ros.Nodes.Setup.Leads.{Leads, ◌▷◌}
use robot_framework_ros.Nodes.Setup.Ready.{
  own_text-At, fresh, ready, At, change-At, advertise-At, subscribe-At, call_base_init-At,
  call_process-At, call_diagnostics-At, config_path-At,
}
use robot_framework_ros.Nodes.Setup.Silent.{
  IsSilent, ◌▶◌, change-IsSilent, show_ready-IsSilent, own_text-IsSilent, advertise-IsSilent,
  subscribe-IsSilent, call_base_init-IsSilent, call_process-IsSilent, call_diagnostics-IsSilent,
  config_path-IsSilent,
}
use robot_framework_ros.Nodes.Imu.Readings.{IsWhole, imu_to_ros_whole}
use robot_framework_ros.Nodes.InertialSensorFuser.{
  SensorFuser, Sent, inertial_sent, State, send_inertial, imu_callback, receive, set_up, run_loop1,
  fuser_program,
}

module _ ⦃p : Platform⦄ {P : Type 0} (q : SensorFuser P) where
  set_up-At : (ids : Text × Text × Text) → Leads (At fresh) (set_up q ids) (At ready)
  unfolding set_up
  set_up-At ids = call_base_init-At ▷ λ _. change-At _ ▷ λ _. call_process-At _ ▷ λ _.
      config_path-At _ ▷ λ path. own_text-At _ ▷ λ imu_input. subscribe-At _ ▷ λ _.
      own_text-At _ ▷ λ machine_inertial.
      advertise-At _ _ ▷ λ _. call_diagnostics-At _ ▷ λ _. change-At _

  set_up-IsSilent : (ids : Text × Text × Text) → IsSilent (set_up q ids)
  unfolding set_up
  set_up-IsSilent ids = call_base_init-IsSilent ▶ λ _.
      change-IsSilent (with_process q.new_process) (λ d. refl) ▶ λ _. call_process-IsSilent _ ▶ λ _.
      config_path-IsSilent _ ▶ λ path. own_text-IsSilent _ ▶ λ imu_input.
      subscribe-IsSilent _ ▶ λ _. own_text-IsSilent _ ▶ λ machine_inertial.
      advertise-IsSilent _ _ ▶ λ _. call_diagnostics-IsSilent _ ▶ λ _. show_ready-IsSilent q.common

  -- When `init` of the inertial sensor fuser succeeds, `start` succeeds and no `update` returns
  -- false.
  pub fuser_program-GoesOn :
      (ids : Text × Text × Text) (arrivals : ℕ → List Imu) (constructed : State q)
      → GoesOn (fuser_program q ids arrivals constructed)
  unfolding fuser_program
  fuser_program-GoesOn ids arrivals constructed =
      process_program-GoesOn q.common (set_up q ids) (run_loop1 q) quiet _ constructed
        (set_up-At ids)

  abbrev pub inertial_in : Text → Imu → Sent
  inertial_in frame m = inertial_sent (record m { header = record (m.header) { frame_id = frame } })

  -- The messages in their order: for an IMU message with the property Came of which the process made
  -- an inertial reading of the machine, that reading in the frame of the message.
  pub data Fused (Came : Imu → Type 0) : List Sent → Type 0 where
    none_yet : Fused Came []
    fused :
        (es : List Sent) (msg : Imu) (x : P) (r : ImuMsg) (m : Imu)
        → Fused Came es
        → Came msg
        → (q.get_machine_inertial_data (q.new_imu_data 0 (imu_to_core msg) x)).1 ≡ some r
        → imu_to_ros r ≡ some m
        → Fused Came (es ++ (inertial_in msg.header.frame_id m ∷ []))

  -- The covariances that the process gives have nine values.
  pub record GivesWhole : Type 0 where
    pub inertial : (x : P) (r : ImuMsg) → (q.get_machine_inertial_data x).1 ≡ some r → IsWhole r

  abbrev pub SentFused : (Imu → Type 0) → State q → Type 0
  SentFused Came d = Fused Came (messages d.outbox)

  module _ (w : GivesWhole) (Came : Imu → Type 0) where
    imu_callback-kept :
        (msg : Imu) (d : State q)
        → Came msg
        → SentFused Came d
        → SentFused Came (imu_callback q msg d)
    unfolding imu_callback send_inertial
    imu_callback-kept msg d c h =
        let x = q.new_imu_data 0 (imu_to_core msg) d.own.process in
        elim (Option-cases (q.get_machine_inertial_data x).1) [
          | inl e ↦ rw (e, imu_callback) h
          | inr (r, e) ↦
              let (m, t) = imu_to_ros_whole r (w.inertial x r e) in
              let message = inertial_in msg.header.frame_id m in
              rw (e, imu_callback, t, send_inertial, messages-snoc d.outbox (sent message))
                (fused (messages d.outbox) msg d.own.process r m h c e t)
        ]

    receive-kept :
        (msgs : List Imu) (d : State q)
        → All Came msgs
        → SentFused Came d
        → SentFused Came (receive q msgs d)
    unfolding receive
    receive-kept [] d c h = h
    receive-kept (msg ∷ rest) d c h = receive-kept rest _ c.1 (imu_callback-kept msg d c.0 h)

  -- However long the inertial sensor fuser runs, from a node that has published nothing and given
  -- that the process's covariances have nine values: no array is overrun, and what it has published
  -- are, for IMU messages that share the properties of all that came, the readings that the process
  -- made of one, in the frame of that message.
  pub fuser_program-Fused :
      (ids : Text × Text × Text) (arrivals : ℕ → List Imu) (constructed : State q) (rounds : ℕ)
      (Came : Imu → Type 0)
      → GivesWhole
      → ((k : ℕ) → All Came (arrivals k))
      → constructed.outbox ≡ []
      → OfExit (SentFused Came) (run_main (fuser_program q ids arrivals constructed) rounds)
  unfolding fuser_program run_loop1 messages
  fuser_program-Fused ids arrivals constructed rounds Came w c e =
      process_program-kept q.common (set_up q ids) (run_loop1 q) quiet _ constructed (Fused Came)
        (set_up-IsSilent ids) (λ b d h. h) (λ b d h. h)
        (λ d h. receive-kept w Came (arrivals d.reads) d (c d.reads) h) (rw e none_yet) rounds
