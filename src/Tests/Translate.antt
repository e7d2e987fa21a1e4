-- ===== src/Tests/Translate.antt =====
-- Translations at concrete inputs.
use robot_framework_ros.Prelude.{replicate, ◌≡◌, refl, some, [], ◌∷◌}
use robot_framework_ros.Translate.Standard.{Vector3DMsg, CovarianceMsg}
use robot_framework_ros.Translate.Geometry.{
  AccelWithCovarianceMsg, AccelWithCovarianceStamped, OdomMsg, accel_stamped_to_core,
  accel_stamped_to_ros, odometry_to_core, odometry_to_ros,
}
use robot_framework_ros.Translate.GeometryLaws.{motion_to_core-to_ros}
use robot_framework_ros.Translate.Sensor.{Imu, ImuMsg, imu_to_core, imu_to_ros}
use robot_framework_ros.Translate.SensorLaws.{imu_to_core-to_ros}
use robot_framework_ros.Tests.Bench.{bench}

abbrev pub a_vector : Vector3DMsg
a_vector = record { x = 1; y = 2; z = 3 }

abbrev pub nine : CovarianceMsg
nine = record { covariance = 1 ∷ 0 ∷ 0 ∷ 0 ∷ 1 ∷ 0 ∷ 0 ∷ 0 ∷ 1 ∷ [] }

abbrev pub an_imu : ImuMsg
an_imu = record {
  seq = 2;
  time_stamp = 5000;
  orientation = record { roll = 1; pitch = 2; yaw = 3 };
  orientation_covariance = nine;
  angular_velocity = a_vector;
  angular_velocity_covariance = nine;
  linear_acceleration = a_vector;
  linear_acceleration_covariance = nine;
}

imu_to_core-to_ros_example :
    (m : Imu) × (imu_to_ros an_imu ≡ some m) × (imu_to_core m ≡ record an_imu { seq = 0 })
imu_to_core-to_ros_example = imu_to_core-to_ros an_imu refl refl refl refl refl refl

abbrev an_acceleration : AccelWithCovarianceMsg
an_acceleration = record {
  time_stamp = 5000;
  accel = record { linear = a_vector; angular = a_vector };
  covariance = record { covariance = replicate 36 7 };
}

abbrev an_odometry : OdomMsg
an_odometry = record {
  time_stamp = 6000;
  pose = 4;
  twist = record { linear = a_vector; angular = a_vector };
  rest = 5;
}

motion_to_core-to_ros_example :
    ((m : AccelWithCovarianceStamped) × (accel_stamped_to_ros an_acceleration ≡ some m)
      × (accel_stamped_to_core m ≡ an_acceleration))
    × (odometry_to_core (odometry_to_ros an_odometry) ≡ record an_odometry { pose = 0; rest = 0 })
motion_to_core-to_ros_example = motion_to_core-to_ros an_acceleration an_odometry refl refl refl
