-- ===== src/Translate/Sensor.antt =====
-- TranslateUtilitySensorMsgs.cpp. `none` is a covariance that does not fit its array.
use robot_framework_ros.Prelude.{if◌then◌else◌, replicate, ℕ, Option, none, some, List, map}
use robot_framework_ros.Platform.{Platform}
use robot_framework_ros.Translate.Standard.{
  Vector3, Vector3DMsg, CovarianceMsg, vector_to_core, vector_to_ros, covariance_to_core,
  covariance_to_ros,
}
use robot_framework_ros.Translate.Geometry.{
  Header, empty_header, zero_vector, zero_quaternion, stamped, Quaternion, OrientationMsg,
  orientation_to_core, orientation_to_ros,
}

module _ ⦃p : Platform⦄ where
  -- `sensor_msgs::Joy`: its axes are `float32`, which `double` holds.
  pub record Joy : Type 0 where
    pub header : Header
    pub axes : List p.Real
    pub buttons : List ℕ

  pub record JoyMsg : Type 0 where
    pub time_stamp : p.Real
    pub axes : List p.Real
    pub buttons : List ℕ

  pub record Imu : Type 0 where
    pub header : Header
    pub orientation : Quaternion
    pub orientation_covariance : List p.Real
    pub angular_velocity : Vector3
    pub angular_velocity_covariance : List p.Real
    pub linear_acceleration : Vector3
    pub linear_acceleration_covariance : List p.Real

  pub record ImuMsg : Type 0 where
    pub seq : ℕ
    pub time_stamp : p.Real
    pub orientation : OrientationMsg
    pub orientation_covariance : CovarianceMsg
    pub angular_velocity : Vector3DMsg
    pub angular_velocity_covariance : CovarianceMsg
    pub linear_acceleration : Vector3DMsg
    pub linear_acceleration_covariance : CovarianceMsg

  pub record MagneticField : Type 0 where
    pub header : Header
    pub magnetic_field : Vector3
    pub magnetic_field_covariance : List p.Real

  pub record MagneticFieldMsg : Type 0 where
    pub time_stamp : p.Real
    pub magnetic_field : Vector3DMsg
    pub magnetic_field_covariance : CovarianceMsg

  unfoldable pub joy_to_core : Joy → JoyMsg
  joy_to_core msg = record {
    time_stamp = p.to_sec msg.header.stamp;
    axes = msg.axes;
    buttons = msg.buttons;
  }

  -- The axes are narrowed to `float`.
  unfoldable pub joy_to_ros : JoyMsg → Joy
  joy_to_ros msg = record {
    header = stamped msg.time_stamp;
    axes = map p.to_float msg.axes;
    buttons = msg.buttons;
  }

  -- The messages as the generated constructors make them: all zero.
  abbrev pub empty_imu : Imu
  empty_imu = record {
    header = empty_header;
    orientation = zero_quaternion;
    orientation_covariance = replicate 9 (p.decimal 0 0);
    angular_velocity = zero_vector;
    angular_velocity_covariance = replicate 9 (p.decimal 0 0);
    linear_acceleration = zero_vector;
    linear_acceleration_covariance = replicate 9 (p.decimal 0 0);
  }

  abbrev pub empty_magnetic : MagneticField
  empty_magnetic = record {
    header = empty_header;
    magnetic_field = zero_vector;
    magnetic_field_covariance = replicate 9 (p.decimal 0 0);
  }

  unfoldable pub imu_to_core : Imu → ImuMsg
  imu_to_core msg = record {
    seq = p.default_seq;
    time_stamp = p.to_sec msg.header.stamp;
    orientation = orientation_to_core msg.orientation;
    orientation_covariance = covariance_to_core msg.orientation_covariance;
    angular_velocity = vector_to_core msg.angular_velocity;
    angular_velocity_covariance = covariance_to_core msg.angular_velocity_covariance;
    linear_acceleration = vector_to_core msg.linear_acceleration;
    linear_acceleration_covariance = covariance_to_core msg.linear_acceleration_covariance;
  }

  infixl 5 ◌>>=◌
  abbrev ◌>>=◌ : {A B : Type 0} → Option A → (A → Option B) → Option B
  none >>= f = none
  some a >>= f = f a

  unfoldable pub imu_to_ros : ImuMsg → Option Imu
  imu_to_ros msg = if p.less msg.time_stamp (p.decimal 0 1) then some empty_imu else (do
    orientation_covariance ← covariance_to_ros 9 msg.orientation_covariance
    angular_velocity_covariance ← covariance_to_ros 9 msg.angular_velocity_covariance
    linear_acceleration_covariance ← covariance_to_ros 9 msg.linear_acceleration_covariance
    some (record {
      header = stamped msg.time_stamp;
      orientation = orientation_to_ros msg.orientation;
      orientation_covariance = orientation_covariance;
      angular_velocity = vector_to_ros msg.angular_velocity;
      angular_velocity_covariance = angular_velocity_covariance;
      linear_acceleration = vector_to_ros msg.linear_acceleration;
      linear_acceleration_covariance = linear_acceleration_covariance;
    }))

  unfoldable pub magnetic_to_core : MagneticField → MagneticFieldMsg
  magnetic_to_core msg = record {
    time_stamp = p.to_sec msg.header.stamp;
    magnetic_field = vector_to_core msg.magnetic_field;
    magnetic_field_covariance = covariance_to_core msg.magnetic_field_covariance;
  }

  unfoldable pub magnetic_to_ros : MagneticFieldMsg → Option MagneticField
  magnetic_to_ros msg = if p.less msg.time_stamp (p.decimal 0 1) then some empty_magnetic else (do
    covariance ← covariance_to_ros 9 msg.magnetic_field_covariance
    some (record {
      header = stamped msg.time_stamp;
      magnetic_field = vector_to_ros msg.magnetic_field;
      magnetic_field_covariance = covariance;
    }))
