-- ===== src/Nodes/LocalPoseFuser/Fusion.antt =====
-- The start and the outputs of the local pose fuser.
use robot_framework_ros.Prelude.{
  Option-cases, length, Text, ℕ, ◌≡◌, refl, inl, inr, some, List, [], ◌∷◌, ◌++◌,
}
use mathlib.Core.List.{append_assoc}
use robot_framework_ros.Platform.{Platform}
use robot_framework_ros.Translate.Standard.{covariance_to_ros, covariance_to_core}
use robot_framework_ros.Translate.StandardLaws.{covariance_to_ros-to_core}
use robot_framework_ros.Translate.Geometry.{
  OdomMsg, AccelWithCovarianceStamped, AccelWithCovarianceMsg, odometry_to_ros,
  accel_stamped_to_ros, empty_odometry, twist_to_ros,
}
use robot_framework_ros.Translate.Sensor.{Imu, imu_to_core}
use robot_framework_ros.BaseNode.State.{sent}
use robot_framework_ros.BaseNode.Run.{run_main}
use robot_framework_ros.BaseNode.Run.Invariants.{OfExit}
use robot_framework_ros.BaseNode.Run.Outbox.{All, messages, messages-snoc}
use robot_framework_ros.Nodes.Process.{with_process, quiet}
use robot_framework_ros.Nodes.Program.{GoesOn, process_program-GoesOn, process_program-kept}
use robot_framework_ros.Nodes.Setup.Leads.{Leads, ◌▷◌}
use robot_framework_ros.Nodes.Setup.Ready.{
  own_text-At, fresh, ready, At, change-At, advertise-At, subscribe-At, call_base_init-At,
  call_process-At, call_diagnostics-At,
}
use robot_framework_ros.Nodes.Setup.Silent.{
  IsSilent, ◌▶◌, change-IsSilent, show_ready-IsSilent, own_text-IsSilent, advertise-IsSilent,
  subscribe-IsSilent, call_base_init-IsSilent, call_process-IsSilent, call_diagnostics-IsSilent,
}
use robot_framework_ros.Nodes.LocalPoseFuser.{
  PoseFuser, Sent, pose_sent, accel_sent, State, send_pose, machine_inertial_callback, receive,
  set_up, run_loop1, fuser_program,
}

module _ ⦃p : Platform⦄ {P : Type 0} (q : PoseFuser P) where
  set_up-At : Leads (At fresh) (set_up q) (At ready)
  unfolding set_up
  set_up-At = call_base_init-At ▷ λ _. change-At _ ▷ λ _. call_process-At _ ▷ λ _.
      own_text-At _ ▷ λ machine_inertial. subscribe-At _ ▷ λ _. own_text-At _ ▷ λ local_pose.
      advertise-At _ _ ▷ λ _. own_text-At _ ▷ λ angular_accel.
      advertise-At _ _ ▷ λ _. call_diagnostics-At _ ▷ λ _. change-At _

  set_up-IsSilent : IsSilent (set_up q)
  unfolding set_up
  set_up-IsSilent = call_base_init-IsSilent ▶ λ _.
      change-IsSilent (with_process q.new_process) (λ d. refl) ▶ λ _. call_process-IsSilent _ ▶ λ _.
      own_text-IsSilent _ ▶ λ machine_inertial. subscribe-IsSilent _ ▶ λ _.
      own_text-IsSilent _ ▶ λ local_pose. advertise-IsSilent _ _ ▶ λ _.
      own_text-IsSilent _ ▶ λ angular_accel.
      advertise-IsSilent _ _ ▶ λ _. call_diagnostics-IsSilent _ ▶ λ _. show_ready-IsSilent q.common

  -- When `init` of the local pose fuser succeeds, `start` succeeds and no `update` returns false.
  pub fuser_program-GoesOn :
      (arrivals : ℕ → List Imu) (constructed : State q)
      → GoesOn (fuser_program q arrivals constructed)
  unfolding fuser_program
  fuser_program-GoesOn arrivals constructed =
      process_program-GoesOn q.common (set_up q) (run_loop1 q) quiet _ constructed set_up-At

  -- A pose message in a frame, with the time and the velocities of the process's message: its pose
  -- and all covariances are zero. And the acceleration in a frame.
  abbrev pub pose_in : Text → OdomMsg → Sent
  pose_in frame odom = pose_sent (record empty_odometry {
    header = record { seq = 0; stamp = p.of_sec odom.time_stamp; frame_id = frame };
    twist = record (empty_odometry.twist) { twist = twist_to_ros odom.twist };
  })

  abbrev pub accel_in : Text → AccelWithCovarianceStamped → Sent
  accel_in frame m = accel_sent (record m { header = record (m.header) { frame_id = frame } })

  -- The messages in their order: for an inertial message with the property Came of which the process
  -- made a pose, the message `pose_in` of it and its acceleration, both in the frame of the message.
  pub data Poses (Came : Imu → Type 0) : List Sent → Type 0 where
    none_yet : Poses Came []
    pose_and_accel :
        (es : List Sent) (msg : Imu) (x : P) (odom : OdomMsg) (accel : AccelWithCovarianceMsg)
        (m : AccelWithCovarianceStamped)
        → Poses Came es
        → Came msg
        → (q.get_local_pose (q.new_machine_inertial_data (imu_to_core msg) x)).1
          ≡ some (odom, accel)
        → accel_stamped_to_ros accel ≡ some m
        → Poses Came
            (es ++ (pose_in msg.header.frame_id odom ∷ accel_in msg.header.frame_id m ∷ []))

  -- The covariances that the process gives have 36 values.
  pub record GivesWhole : Type 0 where
    pub accel :
        (x : P) (odom : OdomMsg) (accel : AccelWithCovarianceMsg)
        → (q.get_local_pose x).1 ≡ some (odom, accel)
        → length accel.covariance.covariance ≡ 36

  accel_stamped_to_ros_whole :
      (a : AccelWithCovarianceMsg)
      → length a.covariance.covariance ≡ 36
      → (m : AccelWithCovarianceStamped) × (accel_stamped_to_ros a ≡ some m)
  unfolding accel_stamped_to_ros covariance_to_core
  accel_stamped_to_ros_whole a h =
      let e : covariance_to_ros 36 a.covariance ≡ some a.covariance.covariance =
        (covariance_to_ros-to_core 36 a.covariance.covariance h).0 in
      rw (e, accel_stamped_to_ros) (_, refl)

  abbrev pub SentPoses : (Imu → Type 0) → State q → Type 0
  SentPoses Came d = Poses Came (messages d.outbox)

  module _ (w : GivesWhole) (Came : Imu → Type 0) where
    machine_inertial_callback-kept :
        (msg : Imu) (d : State q)
        → Came msg
        → SentPoses Came d
        → SentPoses Came (machine_inertial_callback q msg d)
    unfolding machine_inertial_callback send_pose odometry_to_ros
    machine_inertial_callback-kept msg d c h =
        let x = q.new_machine_inertial_data (imu_to_core msg) d.own.process in
        let frame = msg.header.frame_id in
        elim (Option-cases (q.get_local_pose x).1) [
          | inl e ↦ rw (e, machine_inertial_callback) h
          | inr ((odom, accel), e) ↦
              let (m, t) = accel_stamped_to_ros_whole accel (w.accel x odom accel e) in
              let first = pose_in frame odom in
              let second = accel_in frame m in
              rw
                (
                  e,
                  machine_inertial_callback,
                  t,
                  send_pose,
                  messages-snoc (d.outbox ++ (sent first ∷ [])) (sent second),
                  messages-snoc d.outbox (sent first),
                  append_assoc (messages d.outbox) (first ∷ []) (second ∷ []),
                )
                (pose_and_accel (messages d.outbox) msg d.own.process odom accel m h c e t)
        ]

    receive-kept :
        (msgs : List Imu) (d : State q)
        → All Came msgs
        → SentPoses Came d
        → SentPoses Came (receive q msgs d)
    unfolding receive
    receive-kept [] d c h = h
    receive-kept (msg ∷ rest) d c h =
        receive-kept rest _ c.1 (machine_inertial_callback-kept msg d c.0 h)

  -- However long the local pose fuser runs, from a node that has published nothing and given that
  -- the process's covariances have 36 values: no array is overrun, and what it has published are,
  -- for inertial messages that share the properties of all that came and of which the process made a
  -- pose, a pose message and then the acceleration of the process, both in the frame of that
  -- message. The pose message has the time and the velocities that the process gave; the pose in it
  -- is all zero whatever the process gave.
  pub fuser_program-Poses :
      (arrivals : ℕ → List Imu) (constructed : State q) (rounds : ℕ) (Came : Imu → Type 0)
      → GivesWhole
      → ((k : ℕ) → All Came (arrivals k))
      → constructed.outbox ≡ []
      → OfExit (SentPoses Came) (run_main (fuser_program q arrivals constructed) rounds)
  unfolding fuser_program run_loop1 messages
  fuser_program-Poses arrivals constructed rounds Came w c e =
      process_program-kept q.common (set_up q) (run_loop1 q) quiet _ constructed (Poses Came)
        set_up-IsSilent (λ b d h. h) (λ b d h. h)
        (λ d h. receive-kept w Came (arrivals d.reads) d (c d.reads) h) (rw e none_yet) rounds
