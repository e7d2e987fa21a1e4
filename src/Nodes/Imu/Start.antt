-- ===== src/Nodes/Imu/Start.antt =====
-- The configuration and the start of the IMU node.
use robot_framework_ros.Prelude.{
  ◌==◌, if◌then◌else◌, Bool-cases, Option-cases, length, Text, ◌≡◌, refl, inl, inr, none, some,
  arith,
}
use robot_framework_ros.Platform.{Platform}
use robot_framework_ros.Translate.Standard.{covariance_to_core}
use robot_framework_ros.Translate.StandardLaws.{convert_boostarray_9_full}
use robot_framework_ros.Nodes.Setup.{failed, done}
use robot_framework_ros.Nodes.Setup.Leads.{Leads, Holds, ◌▷◌}
use robot_framework_ros.Nodes.Setup.Ready.{
  fresh, initializing, ready, Stage, At, change-At, advertise-At, call_base_init-At,
  call_process-At, call_diagnostics-At, config_path-At, real_at-At, text_at-At,
}
use robot_framework_ros.Nodes.Program.{GoesOn, process_program-GoesOn}
use robot_framework_ros.Nodes.Imu.{
  Inertial, State, ImuNode, covariance_at, load_config, set_up, run_loop1, run_loop2, imu_program,
}

module _ ⦃p : Platform⦄ {P T : Type 0} (q : Inertial P T) where
  -- A covariance block of the IMU's `load_config` reads past no vector: it takes the default for a
  -- missing parameter, exactly the values of one with nine, and fails on any other number of values.
  pub covariance_at_lem :
      (name : Text) (n : ImuNode q)
      → covariance_at q name n ≡ elim (p.param_reals name) [
        | none ↦ done q.default_covariance n
        | some values ↦
            if length values == 9 then done (record { covariance = values }) n else failed n
      ]
  unfolding covariance_at covariance_to_core
  covariance_at_lem name n = elim (Option-cases (p.param_reals name)) [
    | inl e ↦ rw (e, covariance_at) refl
    | inr (values, e) ↦ elim (Bool-cases (length values == 9)) [
      | inl f ↦ rw (e, covariance_at, f, convert_boostarray_9_full values (ground arith)) refl
      | inr f ↦ rw (e, covariance_at, f) refl
    ]
  ]

  covariance_at-At : {s : Stage} (name : Text) → Leads (At s) (covariance_at q name) (At s)
  covariance_at-At name = record {
    leads = λ n x. rw (covariance_at_lem name n) (elim (Option-cases (p.param_reals name)) [
      | inl e ↦ rw (e, Holds) x
      | inr (values, e) ↦ elim (Bool-cases (length values == 9)) [
        | inl f ↦ rw (e, f, Holds) x
        | inr f ↦ rw (e, f, Holds) tt
      ]
    ]);
  }

  load_config-At :
      (ids : Text × Text × Text) → Leads (At initializing) (load_config q ids) (At initializing)
  unfolding load_config
  load_config-At ids = config_path-At _ ▷ λ path. real_at-At _ ▷ λ high. real_at-At _ ▷ λ low.
      text_at-At _ ▷ λ imu_type. text_at-At _ ▷ λ device. covariance_at-At _ ▷ λ orientation.
      covariance_at-At _ ▷ λ gyro.
      covariance_at-At _ ▷ λ linear. covariance_at-At _ ▷ λ magnetometer. call_process-At _

  set_up-At : (ids : Text × Text × Text) → Leads (At fresh) (set_up q ids) (At ready)
  unfolding set_up
  set_up-At ids = call_base_init-At ▷ λ _. load_config-At _ ▷ λ _. text_at-At _ ▷ λ frame.
      change-At _ ▷ λ _. text_at-At _ ▷ λ imu_topic. advertise-At _ _ ▷ λ _.
      text_at-At _ ▷ λ magnetometer_topic. advertise-At _ _ ▷ λ _. text_at-At _ ▷ λ imu_acc_topic.
      advertise-At _ _ ▷ λ _. call_diagnostics-At _ ▷ λ _. change-At _

  -- When `init` of the IMU node succeeds, `start` succeeds and no `update` returns false.
  pub imu_program-GoesOn :
      (ids : Text × Text × Text) (constructed : State q) → GoesOn (imu_program q ids constructed)
  unfolding imu_program
  imu_program-GoesOn ids constructed =
      process_program-GoesOn q.common (set_up q ids) (run_loop1 q) (run_loop2 q) (λ d. d)
        constructed (set_up-At ids)
