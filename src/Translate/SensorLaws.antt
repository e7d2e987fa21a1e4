-- ===== src/Translate/SensorLaws.antt =====
-- Sensor messages through a conversion to ROS and back.
use robot_framework_ros.Prelude.{length, ◌≡◌, ap, true, false, some}
use robot_framework_ros.Platform.{Platform}
use robot_framework_ros.Translate.Standard.{
  CovarianceMsg, vector_to_core, vector_to_ros, covariance_to_core, covariance_to_ros,
}
use robot_framework_ros.Translate.StandardLaws.{covariance_to_ros-to_core}
use robot_framework_ros.Translate.Geometry.{
  stamped, OrientationMsg, orientation_to_core, orientation_to_ros,
}
use robot_framework_ros.Translate.Sensor.{
  empty_magnetic, MagneticField, ImuMsg, Imu, imu_to_core, imu_to_ros, MagneticFieldMsg,
  magnetic_to_core, magnetic_to_ros, empty_imu,
}

module _ ⦃p : Platform⦄ where
  -- Roll, pitch and yaw that tf2 gives back, and a time that `ros::Time` gives back.
  abbrev pub IsExactOrientation : OrientationMsg → Type 0
  IsExactOrientation o =
      let (x, y, z, w) = p.set_rpy o.roll o.pitch o.yaw in
      p.get_rpy x y z w ≡ (o.roll, o.pitch, o.yaw)

  abbrev pub IsExactTime : p.Real → Type 0
  IsExactTime t = p.to_sec (p.of_sec t) ≡ t

  pub full :
      (c : CovarianceMsg) → length c.covariance ≡ 9 → covariance_to_ros 9 c ≡ some c.covariance
  unfolding covariance_to_core
  full c h = (covariance_to_ros-to_core 9 c.covariance h).0

  exact_orientation :
      (o : OrientationMsg) → IsExactOrientation o → orientation_to_core (orientation_to_ros o) ≡ o
  unfolding orientation_to_core orientation_to_ros
  exact_orientation o h =
      ap
        (λ (t : p.Real × p.Real × p.Real).
          let r : OrientationMsg = record { roll = t.0; pitch = t.1; yaw = t.2 } in r)
        h

  -- An IMU message whose time is not negative and is held exactly by `ros::Time`, whose orientation
  -- tf2 gives back, and whose three covariances have nine values, comes back from the conversion to
  -- ROS and back with all its members as they were, except its `seq`, which neither conversion
  -- carries and which comes back as the constructor of the core message sets it.
  pub imu_to_core-to_ros :
      (d : ImuMsg)
      → p.less d.time_stamp (p.decimal 0 1) ≡ false
      → IsExactTime d.time_stamp
      → IsExactOrientation d.orientation
      → length d.orientation_covariance.covariance ≡ 9
      → length d.angular_velocity_covariance.covariance ≡ 9
      → length d.linear_acceleration_covariance.covariance ≡ 9
      → (m : Imu) × (imu_to_ros d ≡ some m) × (imu_to_core m ≡ record d { seq = p.default_seq })
  unfolding imu_to_ros imu_to_core vector_to_core vector_to_ros covariance_to_core
  imu_to_core-to_ros d late time orientation h k l = (
    record {
      header = stamped d.time_stamp;
      orientation = orientation_to_ros d.orientation;
      orientation_covariance = d.orientation_covariance.covariance;
      angular_velocity = vector_to_ros d.angular_velocity;
      angular_velocity_covariance = d.angular_velocity_covariance.covariance;
      linear_acceleration = vector_to_ros d.linear_acceleration;
      linear_acceleration_covariance = d.linear_acceleration_covariance.covariance;
    },
    rw (
      late,
      full d.orientation_covariance h,
      full d.angular_velocity_covariance k,
      full d.linear_acceleration_covariance l,
    ),
    λ i. record d {
      seq = p.default_seq;
      time_stamp = time i;
      orientation = exact_orientation d.orientation orientation i;
    },
  )

  -- A core IMU message or magnetic field message with a negative time is translated to the empty
  -- message, whatever else it holds.
  pub imu_to_ros_negative :
      (d : ImuMsg) (f : MagneticFieldMsg)
      → p.less d.time_stamp (p.decimal 0 1) ≡ true
      → p.less f.time_stamp (p.decimal 0 1) ≡ true
      → (imu_to_ros d ≡ some empty_imu) × (magnetic_to_ros f ≡ some empty_magnetic)
  unfolding imu_to_ros magnetic_to_ros
  imu_to_ros_negative d f h k = (rw h, rw k)

  -- A magnetic field message whose time is not negative and is held exactly by `ros::Time`, and
  -- whose covariance has nine values, comes back unchanged from the conversion to ROS and back.
  pub magnetic_to_core-to_ros :
      (f : MagneticFieldMsg)
      → p.less f.time_stamp (p.decimal 0 1) ≡ false
      → IsExactTime f.time_stamp
      → length f.magnetic_field_covariance.covariance ≡ 9
      → (m : MagneticField) × (magnetic_to_ros f ≡ some m) × (magnetic_to_core m ≡ f)
  unfolding magnetic_to_ros magnetic_to_core vector_to_core vector_to_ros covariance_to_core
  magnetic_to_core-to_ros f late time h = (
    record {
      header = stamped f.time_stamp;
      magnetic_field = vector_to_ros f.magnetic_field;
      magnetic_field_covariance = f.magnetic_field_covariance.covariance;
    },
    rw (late, full f.magnetic_field_covariance h),
    λ i. record f { time_stamp = time i },
  )
