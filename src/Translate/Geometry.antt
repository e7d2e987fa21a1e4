-- ===== src/Translate/Geometry.antt =====
-- TranslateUtilityGeometryMsgs.cpp. The ROS messages have all their members, and the core messages
-- those that are known; what else a core message holds is a type of the platform. `none` is a
-- covariance that does not fit its array.
use robot_framework_ros.Prelude.{replicate, Text, ℕ, Option, none, some, List, []}
use robot_framework_ros.Platform.{Platform}
use robot_framework_ros.Translate.Standard.{
  Vector3, Vector3DMsg, CovarianceMsg, vector_to_core, vector_to_ros, covariance_to_core,
  covariance_to_ros,
}

module _ ⦃p : Platform⦄ where
  -- `std_msgs::Header`.
  pub record Header : Type 0 where
    pub seq : ℕ
    pub stamp : p.Time
    pub frame_id : Text

  abbrev pub empty_header : Header
  empty_header = record { seq = 0; stamp = p.zero_time; frame_id = [] }

  abbrev pub stamped : p.Real → Header
  stamped t = record { seq = 0; stamp = p.of_sec t; frame_id = [] }

  -- `geometry_msgs::Accel` and `geometry_msgs::Twist`.
  pub record Accel : Type 0 where
    pub linear : Vector3
    pub angular : Vector3

  pub record Twist : Type 0 where
    pub linear : Vector3
    pub angular : Vector3

  pub record AccelMsg : Type 0 where
    pub linear : Vector3DMsg
    pub angular : Vector3DMsg

  pub record TwistMsg : Type 0 where
    pub linear : Vector3DMsg
    pub angular : Vector3DMsg

  pub record AccelWithCovarianceStamped : Type 0 where
    pub header : Header
    pub accel : Accel
    pub covariance : List p.Real

  pub record AccelWithCovarianceMsg : Type 0 where
    pub time_stamp : p.Real
    pub accel : AccelMsg
    pub covariance : CovarianceMsg

  pub record Quaternion : Type 0 where
    pub x : p.Real
    pub y : p.Real
    pub z : p.Real
    pub w : p.Real

  pub record OrientationMsg : Type 0 where
    pub roll : p.Real
    pub pitch : p.Real
    pub yaw : p.Real

  -- `geometry_msgs::PoseWithCovariance` and `geometry_msgs::TwistWithCovariance`.
  pub record PoseWithCovariance : Type 0 where
    pub position : Vector3
    pub orientation : Quaternion
    pub covariance : List p.Real

  pub record TwistWithCovariance : Type 0 where
    pub twist : Twist
    pub covariance : List p.Real

  -- `nav_msgs::Odometry`.
  pub record Odometry : Type 0 where
    pub header : Header
    pub child_frame_id : Text
    pub pose : PoseWithCovariance
    pub twist : TwistWithCovariance

  -- `OdomMsg`; `twist` is `twist.twist`.
  pub record OdomMsg : Type 0 where
    pub time_stamp : p.Real
    pub pose : p.CorePose
    pub twist : TwistMsg
    pub rest : p.OdomRest

  -- The messages as the generated constructors make them: all zero.
  abbrev pub zero_vector : Vector3
  zero_vector = record { x = p.decimal 0 0; y = p.decimal 0 0; z = p.decimal 0 0 }

  abbrev pub zero_quaternion : Quaternion
  zero_quaternion = record {
    x = p.decimal 0 0;
    y = p.decimal 0 0;
    z = p.decimal 0 0;
    w = p.decimal 0 0;
  }

  abbrev pub zero_twist : Twist
  zero_twist = record { linear = zero_vector; angular = zero_vector }

  abbrev pub empty_odometry : Odometry
  empty_odometry = record {
    header = empty_header;
    child_frame_id = [];
    pose = record {
      position = zero_vector;
      orientation = zero_quaternion;
      covariance = replicate 36 (p.decimal 0 0);
    };
    twist = record { twist = zero_twist; covariance = replicate 36 (p.decimal 0 0) };
  }

  unfoldable pub accel_to_core : Accel → AccelMsg
  unfolding vector_to_core
  accel_to_core msg = record {
    linear = vector_to_core msg.linear;
    angular = vector_to_core msg.angular;
  }

  unfoldable pub accel_to_ros : AccelMsg → Accel
  unfolding vector_to_ros
  accel_to_ros msg = record {
    linear = vector_to_ros msg.linear;
    angular = vector_to_ros msg.angular;
  }

  unfoldable pub accel_stamped_to_core : AccelWithCovarianceStamped → AccelWithCovarianceMsg
  unfolding accel_to_core covariance_to_core
  accel_stamped_to_core msg = record {
    time_stamp = p.to_sec msg.header.stamp;
    accel = accel_to_core msg.accel;
    covariance = covariance_to_core msg.covariance;
  }

  unfoldable pub accel_stamped_to_ros : AccelWithCovarianceMsg → Option AccelWithCovarianceStamped
  unfolding accel_to_ros
  accel_stamped_to_ros msg = elim (covariance_to_ros 36 msg.covariance) [
    | none ↦ none
    | some c ↦
        some (record {
          header = stamped msg.time_stamp;
          accel = accel_to_ros msg.accel;
          covariance = c;
        })
  ]

  unfoldable pub twist_to_core : Twist → TwistMsg
  unfolding vector_to_core
  twist_to_core msg = record {
    linear = vector_to_core msg.linear;
    angular = vector_to_core msg.angular;
  }

  unfoldable pub twist_to_ros : TwistMsg → Twist
  unfolding vector_to_ros
  twist_to_ros msg = record {
    linear = vector_to_ros msg.linear;
    angular = vector_to_ros msg.angular;
  }

  unfoldable pub orientation_to_core : Quaternion → OrientationMsg
  orientation_to_core msg =
      let (roll, pitch, yaw) = p.get_rpy msg.x msg.y msg.z msg.w in
      record { roll = roll; pitch = pitch; yaw = yaw }

  unfoldable pub orientation_to_ros : OrientationMsg → Quaternion
  orientation_to_ros msg =
      let (x, y, z, w) = p.set_rpy msg.roll msg.pitch msg.yaw in
      record { x = x; y = y; z = z; w = w }

  -- The assignment of the pose is commented out in both conversions.
  unfoldable pub odometry_to_core : Odometry → OdomMsg
  unfolding twist_to_core
  odometry_to_core msg = record {
    time_stamp = p.to_sec msg.header.stamp;
    pose = p.default_pose;
    twist = twist_to_core msg.twist.twist;
    rest = p.default_odom_rest;
  }

  unfoldable pub odometry_to_ros : OdomMsg → Odometry
  unfolding twist_to_ros
  odometry_to_ros msg = record empty_odometry {
    header = stamped msg.time_stamp;
    twist = record (empty_odometry.twist) { twist = twist_to_ros msg.twist };
  }
