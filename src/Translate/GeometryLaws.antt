-- ===== src/Translate/GeometryLaws.antt =====
-- Geometry messages through a conversion to ROS and back.
use robot_framework_ros.Prelude.{length, ◌≡◌, refl, some}
use robot_framework_ros.Platform.{Platform}
use robot_framework_ros.Translate.Standard.{vector_to_core, vector_to_ros, covariance_to_core}
use robot_framework_ros.Translate.StandardLaws.{covariance_to_ros-to_core}
use robot_framework_ros.Translate.Geometry.{
  stamped, AccelWithCovarianceMsg, AccelWithCovarianceStamped, OdomMsg, accel_to_core, accel_to_ros,
  accel_stamped_to_core, accel_stamped_to_ros, twist_to_core, twist_to_ros, odometry_to_core,
  odometry_to_ros,
}
use robot_framework_ros.Translate.SensorLaws.{IsExactTime}

module _ ⦃p : Platform⦄ where
  -- Given times that `ros::Time` holds exactly, an acceleration with a covariance of 36 values comes
  -- back unchanged from the conversion to ROS and back, and an odometry message comes back with its
  -- time and its velocities as they were, but with the pose and the other members that the
  -- constructor of the core message sets, since neither conversion carries them.
  pub motion_to_core-to_ros :
      (a : AccelWithCovarianceMsg) (o : OdomMsg)
      → IsExactTime a.time_stamp
      → IsExactTime o.time_stamp
      → length a.covariance.covariance ≡ 36
      → ((m : AccelWithCovarianceStamped) × (accel_stamped_to_ros a ≡ some m)
          × (accel_stamped_to_core m ≡ a))
        × (odometry_to_core (odometry_to_ros o)
            ≡ record o { pose = p.default_pose; rest = p.default_odom_rest })
  unfolding accel_stamped_to_ros accel_stamped_to_core odometry_to_core odometry_to_ros
      accel_to_core accel_to_ros twist_to_core twist_to_ros vector_to_core vector_to_ros
      covariance_to_core
  motion_to_core-to_ros a o time clock h = (
    (
      record {
        header = stamped a.time_stamp;
        accel = accel_to_ros a.accel;
        covariance = a.covariance.covariance;
      },
      rw ((covariance_to_ros-to_core 36 a.covariance.covariance h).0, accel_stamped_to_ros) refl,
      λ i. record a { time_stamp = time i },
    ),
    λ i. record o { time_stamp = clock i; pose = p.default_pose; rest = p.default_odom_rest },
  )
