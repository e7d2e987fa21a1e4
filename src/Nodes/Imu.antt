-- ===== src/Nodes/Imu.antt =====
-- `IMUNode` of Systems/Pose/Subsystems/InertialSensor/Nodes/IMU. The output `overran` marks that a
-- covariance of the process was written past the end of its array, after which the behaviour of the
-- source is undefined.
pub mod Start
pub mod Readings
use robot_framework_ros.Prelude.{
  ◌==◌, if◌then◌else◌, length, Text, text, Bool, true, Option, none, some, ◌++◌,
}
use robot_framework_ros.Platform.{Platform}
use robot_framework_ros.Translate.Standard.{CovarianceMsg, covariance_to_core, convert_boostarray_9}
use robot_framework_ros.Translate.Geometry.{zero_vector, Header, Accel}
use robot_framework_ros.Translate.Sensor.{
  Imu, ImuMsg, MagneticField, MagneticFieldMsg, imu_to_ros, magnetic_to_ros,
}
use robot_framework_ros.BaseNode.State.{Base, Derived, Node, emit, sent}
use robot_framework_ros.BaseNode.Run.{Program}
use robot_framework_ros.Nodes.Process.{Process, Members, with_process, update_process, show_ready}
use robot_framework_ros.Nodes.Program.{process_program}
use robot_framework_ros.Nodes.Setup.{
  Setup, crashed, failed, done, ◌>>=◌, ◌>>◌, call_base_init, call_process, call_diagnostics,
  config_path, advertise, change, real_at, text_at,
}

module _ ⦃p : Platform⦄ where
  -- `IIMUProcess::IMUConfig`, with its type of IMU.
  pub record ImuConfig (T : Type 0) : Type 0 where
    pub high_packet_dropped_rate_threshold : p.Real
    pub low_packet_rx_rate_threshold : p.Real
    pub imu_type : T
    pub imu_device_name : Text
    pub linear_accelerometer_covariance : CovarianceMsg
    pub gyro_covariance : CovarianceMsg
    pub magnetometer_covariance : CovarianceMsg
    pub orientation_covariance : CovarianceMsg

  -- The process, `IIMUDriver::convert_name` and the constructor of `Covariance3DMsg`, of the core
  -- library. `get_imu_data` and `get_magnetic_data` give `none` for false.
  pub record Inertial (P T : Type 0) : Type 0 where
    pub common : Process P
    pub init : ImuConfig T → P → P × Bool
    pub convert_name : Text → T
    pub default_covariance : CovarianceMsg
    pub get_imu_data : P → P × Option ImuMsg
    pub get_magnetic_data : P → P × Option MagneticFieldMsg

  pub record Sensor : Type 0 where
    pub imu_sensor_frame : Text

  -- `geometry_msgs::AccelStamped`.
  pub record AccelStamped : Type 0 where
    pub header : Header
    pub accel : Accel

  pub data Sent : Type 0 where
    imu_sent : Imu → Sent
    accel_sent : AccelStamped → Sent
    magnetic_sent : MagneticField → Sent
    overran : Sent

  module _ {P T : Type 0} (q : Inertial P T) where
    abbrev pub State : Type 0
    State = Derived (Members P Sensor) Sent

    abbrev pub ImuNode : Type 0
    ImuNode = Node (Members P Sensor) Sent

    -- One block of `load_config`: a missing parameter leaves the matrix as it was constructed.
    unfoldable pub covariance_at : Text → Setup ImuNode CovarianceMsg
    covariance_at name n = elim (p.param_reals name) [
      | none ↦ done q.default_covariance n
      | some values ↦
          if length values == 9
          then (elim (convert_boostarray_9 values) [
            | none ↦ crashed
            | some array ↦ done (covariance_to_core array) n
          ])
          else failed n
    ]

    unfoldable pub load_config : (Text × Text × Text) → Setup ImuNode (Unit {0})
    load_config ids = do
      path ← config_path ids
      high ← real_at (path ++ text "/high_packet_dropped_rate_threshold")
      low ← real_at (path ++ text "/low_packet_rx_rate_threshold")
      imu_type ← text_at (text "info/type")
      imu_device_name ← text_at (text "info/device_name")
      orientation ← covariance_at (text "orientation_covariance_matrix")
      gyro ← covariance_at (text "gyro_covariance_matrix")
      linear ← covariance_at (text "linear_accel_covariance_matrix")
      magnetometer ← covariance_at (text "magnetic_covariance_matrix")
      call_process (
          q.init (record {
            high_packet_dropped_rate_threshold = high;
            low_packet_rx_rate_threshold = low;
            imu_type = q.convert_name imu_type;
            imu_device_name = imu_device_name;
            linear_accelerometer_covariance = linear;
            gyro_covariance = gyro;
            magnetometer_covariance = magnetometer;
            orientation_covariance = orientation;
          }))

    abbrev pub set_frame : Text → State → State
    set_frame frame d = record d {
      own = record (d.own) { more = record { imu_sensor_frame = frame } };
    }

    unfoldable pub set_up : (Text × Text × Text) → Setup ImuNode (Unit {0})
    set_up ids = do
      call_base_init
      load_config ids
      frame ← text_at (text "imu_sensor_frame")
      change (set_frame frame)
      imu_topic ← text_at (text "topic_imu")
      advertise (text "sensor_msgs/Imu") imu_topic
      magnetometer_topic ← text_at (text "topic_magnetometer")
      advertise (text "sensor_msgs/MagneticField") magnetometer_topic
      imu_acc_topic ← text_at (text "topic_imu_acc")
      advertise (text "geometry_msgs/AccelStamped") imu_acc_topic
      call_diagnostics q.common
      change (λ d. show_ready q.common (update_process q.common d))

    unfoldable pub run_loop1 : Base → State → State × Bool
    run_loop1 b d = (update_process q.common d, true)

    -- The message in the frame of the sensor, and its acceleration alone.
    unfoldable pub send_imu : ImuMsg → State → State
    send_imu reading d = elim (imu_to_ros reading) [
      | none ↦ emit (sent overran) d
      | some msg ↦
          let header = record (msg.header) { frame_id = d.own.more.imu_sensor_frame } in
          let accel : Accel = record { linear = msg.linear_acceleration; angular = zero_vector } in
          emit (sent (accel_sent (record { header = header; accel = accel })))
            (emit (sent (imu_sent (record msg { header = header }))) d)
    ]

    unfoldable pub send_magnetic : MagneticFieldMsg → State → State
    send_magnetic reading d = elim (magnetic_to_ros reading) [
      | none ↦ emit (sent overran) d
      | some msg ↦
          let header = record (msg.header) { frame_id = d.own.more.imu_sensor_frame } in
          emit (sent (magnetic_sent (record msg { header = header }))) d
    ]

    -- The two blocks of `run_loop2`.
    unfoldable pub imu_block : State → State
    imu_block d =
        let (x, reading) = q.get_imu_data d.own.process in
        let d' : State = with_process x d in elim reading [ none ↦ d' | some msg ↦ send_imu msg d' ]

    unfoldable pub magnetic_block : State → State
    magnetic_block d =
        let (x, reading) = q.get_magnetic_data d.own.process in
        let d' : State = with_process x d in
        elim reading [ none ↦ d' | some msg ↦ send_magnetic msg d' ]

    unfoldable pub run_loop2 : Base → State → State × Bool
    run_loop2 b d = (magnetic_block (imu_block d), true)

    unfoldable pub imu_program : (Text × Text × Text) → State → Program (Members P Sensor) Sent
    unfolding process_program
    imu_program ids constructed =
        process_program q.common (set_up ids) run_loop1 run_loop2 (λ d. d) constructed
