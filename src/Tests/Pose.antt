-- ===== src/Tests/Pose.antt =====
-- The IMU node and the pose fusers, at concrete inputs.
use robot_framework_ros.Prelude.{
  length, replicate, text, ℕ, ◌≡◌, refl, true, Option, none, some, [], ◌∷◌,
}
use mathlib.Core.Path.{subst}
use robot_framework_ros.BaseNode.Run.{main_loop, run_main}
use robot_framework_ros.BaseNode.Run.Invariants.{OfExit}
use robot_framework_ros.Translate.Geometry.{OdomMsg, AccelWithCovarianceMsg}
use robot_framework_ros.Translate.Sensor.{MagneticFieldMsg, empty_imu}
use robot_framework_ros.Nodes.Setup.{done}
use robot_framework_ros.Nodes.Imu.{Inertial, ImuNode, covariance_at, imu_program}
use robot_framework_ros.Nodes.Imu.Start.{covariance_at_lem}
use robot_framework_ros.Nodes.Imu.Readings.{
  IsWhole, IsNine, GivesWhole, HasReadNode, imu_program-Readings,
}
use robot_framework_ros.Nodes.InertialSensorFuser.{
  SensorFuser, Sent as InertialSent, fuser_program as inertial_program,
}
use robot_framework_ros.Nodes.InertialSensorFuser.Fusion.{SentFused, fuser_program-Fused}
use robot_framework_ros.Nodes.LocalPoseFuser.{PoseFuser, Sent as PoseSent, fuser_program}
use robot_framework_ros.Nodes.LocalPoseFuser.Fusion.{SentPoses, fuser_program-Poses}
use robot_framework_ros.Tests.Translate.{an_imu, nine, a_vector}
use robot_framework_ros.Tests.Navigation.{counting, idle}
use robot_framework_ros.Tests.Bench.{bench, node_in}

abbrev a_field : MagneticFieldMsg
a_field = record { time_stamp = 5000; magnetic_field = a_vector; magnetic_field_covariance = nine }

abbrev a_sensor : Inertial ℕ ℕ
a_sensor = record {
  common = counting;
  init = λ config x. (x, true);
  convert_name = λ name. 0;
  default_covariance = nine;
  get_imu_data = λ x. (x, some an_imu);
  get_magnetic_data = λ x. (x, some a_field);
}

-- What holds of a result holds of the value in it.
abbrev Each : {A : Type 0} → (A → Type 0) → Option A → Type 0
Each G none = Unit {0}
Each G (some a) = G a

a_sensor-GivesWhole : GivesWhole a_sensor
a_sensor-GivesWhole = record {
  imu = λ x r e. subst (Each IsWhole) e (refl, refl, refl);
  magnetic = λ x r e. subst (Each (λ m. IsNine m.magnetic_field_covariance)) e refl;
}

abbrev an_imu_node : ImuNode a_sensor
an_imu_node = record {
  base = (node_in 2).base;
  derived = record {
    diagnostics = [];
    ready_to_arm = bench.default_ready_to_arm;
    own = record { running = true; process = 0; more = record { imu_sensor_frame = text "imu" } };
    reads = 0;
    outbox = [];
  };
}

covariance_at_lem_example :
    covariance_at a_sensor (text "gyro_covariance_matrix") an_imu_node ≡ done nine an_imu_node
covariance_at_lem_example = covariance_at_lem a_sensor (text "gyro_covariance_matrix") an_imu_node

imu_program-Readings_example :
    let m = (imu_program a_sensor (text "a", text "b", text "c") an_imu_node.derived).methods in
    HasReadNode a_sensor (text "imu") (main_loop 10 m an_imu_node).0.derived
imu_program-Readings_example =
    imu_program-Readings a_sensor (text "a", text "b", text "c") an_imu_node.derived an_imu_node 10
      a_sensor-GivesWhole refl

abbrev an_inertial_fuser : SensorFuser ℕ
an_inertial_fuser = record {
  common = counting;
  new_process = 0;
  init = λ count x. (x, true);
  new_imu_data = λ index msg x. x;
  get_machine_inertial_data = λ x. (x, some an_imu);
}

fuser_program-Fused_example : OfExit (SentFused an_inertial_fuser (λ msg. msg ≡ empty_imu)) (
    run_main
      (inertial_program an_inertial_fuser
        (text "a", text "b", text "c")
        (λ n. empty_imu ∷ [])
        (idle InertialSent))
      10)
fuser_program-Fused_example =
    fuser_program-Fused an_inertial_fuser (text "a", text "b", text "c") (λ n. empty_imu ∷ [])
      (idle InertialSent) 10 (λ msg. msg ≡ empty_imu)
      (record { inertial = λ x r e. subst (Each IsWhole) e (refl, refl, refl) }) (λ k. (refl, tt))
      refl

abbrev an_odometry : OdomMsg
an_odometry = record {
  time_stamp = 5000;
  pose = 4;
  twist = record { linear = a_vector; angular = a_vector };
  rest = 5;
}

abbrev an_accel : AccelWithCovarianceMsg
an_accel = record {
  time_stamp = 5000;
  accel = record { linear = a_vector; angular = a_vector };
  covariance = record { covariance = replicate 36 1 };
}

abbrev a_pose_fuser : PoseFuser ℕ
a_pose_fuser = record {
  common = counting;
  new_process = 0;
  init = λ x. (x, true);
  new_machine_inertial_data = λ msg x. x;
  get_local_pose = λ x. (x, some (an_odometry, an_accel));
}

fuser_program-Poses_example :
    OfExit
      (SentPoses a_pose_fuser (λ msg. msg ≡ empty_imu))
      (run_main (fuser_program a_pose_fuser (λ n. empty_imu ∷ []) (idle PoseSent)) 10)
fuser_program-Poses_example =
    fuser_program-Poses a_pose_fuser (λ n. empty_imu ∷ []) (idle PoseSent) 10
      (λ msg. msg ≡ empty_imu)
      (record {
        accel = λ x odom accel e.
            subst
              (Each
                (λ (r : OdomMsg × AccelWithCovarianceMsg). length r.1.covariance.covariance ≡ 36))
              e refl;
      })
      (λ k. (refl, tt)) refl
