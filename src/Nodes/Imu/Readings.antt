-- ===== src/Nodes/Imu/Readings.antt =====
-- What the IMU node publishes.
use robot_framework_ros.Prelude.{
  Bool-cases, Option-cases, length, Text, ℕ, ◌≡◌, refl, inl, inr, some, List, [], ◌∷◌, ◌++◌,
}
use robot_framework_ros.Platform.{Platform}
use mathlib.Core.List.{append_assoc}
use robot_framework_ros.Translate.Standard.{CovarianceMsg}
use robot_framework_ros.Translate.Geometry.{zero_vector, Header}
use robot_framework_ros.Translate.Sensor.{
  Imu, ImuMsg, MagneticField, MagneticFieldMsg, imu_to_ros, magnetic_to_ros, empty_imu,
  empty_magnetic,
}
use robot_framework_ros.Translate.SensorLaws.{full}
use robot_framework_ros.BaseNode.State.{sent}
use robot_framework_ros.BaseNode.Run.{main_loop}
use robot_framework_ros.BaseNode.Run.Invariants.{main_loop-kept}
use robot_framework_ros.BaseNode.Run.Outbox.{messages, messages-snoc, messages-IsUndisturbed}
use robot_framework_ros.Nodes.Program.{process_program-IsKept}
use robot_framework_ros.Nodes.Imu.{
  Inertial, Sensor, AccelStamped, Sent, imu_sent, accel_sent, magnetic_sent, State, ImuNode, set_up,
  send_imu, send_magnetic, imu_block, magnetic_block, run_loop1, run_loop2, imu_program,
}

module _ ⦃p : Platform⦄ where
  abbrev pub IsNine : CovarianceMsg → Type 0
  IsNine c = length c.covariance ≡ 9

  abbrev pub IsWhole : ImuMsg → Type 0
  IsWhole r =
      IsNine r.orientation_covariance
      × IsNine r.angular_velocity_covariance
      × IsNine r.linear_acceleration_covariance

  pub imu_to_ros_whole : (r : ImuMsg) → IsWhole r → (m : Imu) × (imu_to_ros r ≡ some m)
  unfolding imu_to_ros
  imu_to_ros_whole r (h, k, l) = elim (Bool-cases (p.less r.time_stamp (p.decimal 0 1))) [
    | inl e ↦ (empty_imu, rw (e, imu_to_ros) refl)
    | inr e ↦
        rw
          (
            e,
            full r.orientation_covariance h,
            full r.angular_velocity_covariance k,
            full r.linear_acceleration_covariance l,
          )
          (_, refl)
  ]

  magnetic_to_ros_whole :
      (r : MagneticFieldMsg)
      → IsNine r.magnetic_field_covariance
      → (m : MagneticField) × (magnetic_to_ros r ≡ some m)
  unfolding magnetic_to_ros
  magnetic_to_ros_whole r h = elim (Bool-cases (p.less r.time_stamp (p.decimal 0 1))) [
    | inl e ↦ (empty_magnetic, rw e refl)
    | inr e ↦ rw (e, full r.magnetic_field_covariance h) (_, refl)
  ]

  -- The header in the frame of the sensor.
  abbrev pub framed : Text → Header → Header
  framed frame h = record h { frame_id = frame }

  abbrev pub accel_of : Text → Imu → AccelStamped
  accel_of frame m = record {
    header = framed frame m.header;
    accel = record { linear = m.linear_acceleration; angular = zero_vector };
  }

  module _ {P T : Type 0} (q : Inertial P T) where
    -- The messages in their order, for a sensor frame: translated readings of the process, each IMU
    -- message with its acceleration behind it.
    pub data Readings (frame : Text) : List Sent → Type 0 where
      none_yet : Readings frame []
      imu_and_accel :
          (es : List Sent) (x : P) (r : ImuMsg) (m : Imu)
          → Readings frame es
          → (q.get_imu_data x).1 ≡ some r
          → imu_to_ros r ≡ some m
          → Readings frame (
              es
              ++ (imu_sent (record m { header = framed frame m.header })
                  ∷ accel_sent (accel_of frame m)
                  ∷ []))
      magnetic :
          (es : List Sent) (x : P) (r : MagneticFieldMsg) (m : MagneticField)
          → Readings frame es
          → (q.get_magnetic_data x).1 ≡ some r
          → magnetic_to_ros r ≡ some m
          → Readings frame
              (es ++ (magnetic_sent (record m { header = framed frame m.header }) ∷ []))

    -- The covariances that the process gives have nine values.
    pub record GivesWhole : Type 0 where
      pub imu : (x : P) (r : ImuMsg) → (q.get_imu_data x).1 ≡ some r → IsWhole r
      pub magnetic :
          (x : P) (r : MagneticFieldMsg)
          → (q.get_magnetic_data x).1 ≡ some r
          → IsNine r.magnetic_field_covariance

    abbrev pub HasRead : Text → Sensor → List Sent → Type 0
    HasRead frame s es = (s.imu_sensor_frame ≡ frame) × Readings frame es

    abbrev pub HasReadNode : Text → State q → Type 0
    HasReadNode frame d = HasRead frame d.own.more (messages d.outbox)

    module _ (w : GivesWhole) (frame : Text) where
      send_imu-kept :
          (x : P) (r : ImuMsg) (d : State q)
          → (q.get_imu_data x).1 ≡ some r
          → HasReadNode frame d
          → HasReadNode frame (send_imu q r d)
      unfolding send_imu
      send_imu-kept x r d e (f, h) =
          let (m, t) = imu_to_ros_whole r (w.imu x r e) in
          let first = imu_sent (record m { header = framed frame m.header }) in
          let second = accel_sent (accel_of frame m) in
          rw
            (
              t,
              send_imu,
              f,
              messages-snoc (d.outbox ++ (sent first ∷ [])) (sent second),
              messages-snoc d.outbox (sent first),
              append_assoc (messages d.outbox) (first ∷ []) (second ∷ []),
            )
            (refl, imu_and_accel (messages d.outbox) x r m h e t)

      send_magnetic-kept :
          (x : P) (r : MagneticFieldMsg) (d : State q)
          → (q.get_magnetic_data x).1 ≡ some r
          → HasReadNode frame d
          → HasReadNode frame (send_magnetic q r d)
      unfolding send_magnetic
      send_magnetic-kept x r d e (f, h) =
          let (m, t) = magnetic_to_ros_whole r (w.magnetic x r e) in
          let first = magnetic_sent (record m { header = framed frame m.header }) in
          rw (t, send_magnetic, f, messages-snoc d.outbox (sent first))
            (refl, magnetic (messages d.outbox) x r m h e t)

      imu_block-kept : (d : State q) → HasReadNode frame d → HasReadNode frame (imu_block q d)
      unfolding imu_block
      imu_block-kept d h = elim (Option-cases (q.get_imu_data d.own.process).1) [
        | inl e ↦ rw (e, imu_block) h
        | inr (r, e) ↦ rw (e, imu_block) (send_imu-kept d.own.process r _ e h)
      ]

      magnetic_block-kept :
          (d : State q) → HasReadNode frame d → HasReadNode frame (magnetic_block q d)
      unfolding magnetic_block
      magnetic_block-kept d h = elim (Option-cases (q.get_magnetic_data d.own.process).1) [
        | inl e ↦ rw (e, magnetic_block) h
        | inr (r, e) ↦ rw (e, magnetic_block) (send_magnetic-kept d.own.process r _ e h)
      ]

    -- Given that the covariances of the process have nine values each, the main loop of an IMU node
    -- that has published nothing writes past no array, however long it runs: what it has published
    -- are translated readings of the process in the node's `imu_sensor_frame`, which does not
    -- change, each IMU message with its header and linear acceleration alone right behind it.
    pub imu_program-Readings :
        (ids : Text × Text × Text) (constructed : State q) (n : ImuNode q) (rounds : ℕ)
        → GivesWhole
        → n.derived.outbox ≡ []
        → let m = (imu_program q ids constructed).methods in
          HasReadNode n.derived.own.more.imu_sensor_frame (main_loop rounds m n).0.derived
    unfolding imu_program run_loop1 run_loop2 messages
    imu_program-Readings ids constructed n rounds w e =
        let frame = n.derived.own.more.imu_sensor_frame in
        main_loop-kept (HasReadNode frame)
          (messages-IsUndisturbed (λ own es. HasRead frame own.more es))
          (imu_program q ids constructed).methods
          (process_program-IsKept q.common (set_up q ids) (run_loop1 q) (run_loop2 q) (λ d. d)
            constructed (HasRead frame) (λ b d h. h)
            (λ b d h. magnetic_block-kept w frame _ (imu_block-kept w frame d h)) (λ d h. h))
          rounds n (refl, rw e none_yet)
