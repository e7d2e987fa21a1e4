-- ===== src/Nodes/LocalPoseFuser.antt =====
-- `LocalPoseFuserNode` of Systems/Pose/Subsystems/LocalPose/Nodes/LocalPoseFuser. The output
-- `overran` marks that a covariance of the process was written past the end of its array, after
-- which the behaviour of the source is undefined.
pub mod Fusion
use robot_framework_ros.Prelude.{Text, text, ℕ, Bool, true, Option, none, some, List, [], ◌∷◌}
use robot_framework_ros.Platform.{Platform}
use robot_framework_ros.Translate.Geometry.{
  Odometry, OdomMsg, AccelWithCovarianceStamped, AccelWithCovarianceMsg, odometry_to_ros,
  accel_stamped_to_ros,
}
use robot_framework_ros.Translate.Sensor.{Imu, ImuMsg, imu_to_core}
use robot_framework_ros.BaseNode.State.{Base, Derived, Node, emit, sent}
use robot_framework_ros.BaseNode.Run.{Program}
use robot_framework_ros.Nodes.Process.{
  Process, Members, with_process, update_process, show_ready, quiet,
}
use robot_framework_ros.Nodes.Program.{process_program}
use robot_framework_ros.Nodes.Setup.{
  Setup, ◌>>=◌, ◌>>◌, call_base_init, call_process, call_diagnostics, own_text, advertise,
  subscribe, change,
}

module _ ⦃p : Platform⦄ where
  -- `BasicLocalPoseFuserProcess`, of the core library; `get_local_pose` gives `none` for false.
  pub record PoseFuser (P : Type 0) : Type 0 where
    pub common : Process P
    pub new_process : P
    pub init : P → P × Bool
    pub new_machine_inertial_data : ImuMsg → P → P
    pub get_local_pose : P → P × Option (OdomMsg × AccelWithCovarianceMsg)

  pub data Sent : Type 0 where
    pose_sent : Odometry → Sent
    accel_sent : AccelWithCovarianceStamped → Sent
    overran : Sent

  module _ {P : Type 0} (q : PoseFuser P) where
    abbrev pub State : Type 0
    State = Derived (Members P (Unit {0})) Sent

    abbrev pub FuserNode : Type 0
    FuserNode = Node (Members P (Unit {0})) Sent

    -- The pose and then the acceleration, in the frame of the message that came.
    unfoldable pub send_pose : Text → OdomMsg → AccelWithCovarianceMsg → State → State
    send_pose frame odom accel d =
        let pose = odometry_to_ros odom in
        let framed_pose : Odometry = record pose {
          header = record (pose.header) { frame_id = frame };
        } in
        let d1 = emit (sent (pose_sent framed_pose)) d in
        elim (accel_stamped_to_ros accel) [
          | none ↦ emit (sent overran) d1
          | some msg ↦
              let header = record (msg.header) { frame_id = frame } in
              emit (sent (accel_sent (record msg { header = header }))) d1
        ]

    unfoldable pub machine_inertial_callback : Imu → State → State
    machine_inertial_callback msg d =
        let (x, fused) =
          q.get_local_pose (q.new_machine_inertial_data (imu_to_core msg) d.own.process) in
        let d' : State = with_process x d in
        elim fused [ none ↦ d' | some (odom, accel) ↦ send_pose msg.header.frame_id odom accel d' ]

    unfoldable pub receive : List Imu → State → State
    unfolding machine_inertial_callback
    receive [] d = d
    receive (msg ∷ rest) d = receive rest (machine_inertial_callback msg d)

    -- `load_config` is empty.
    unfoldable pub set_up : Setup FuserNode (Unit {0})
    set_up = do
      call_base_init
      change (with_process q.new_process)
      call_process q.init
      machine_inertial ← own_text (text "/topic_machine_inertial_input")
      subscribe machine_inertial
      local_pose ← own_text (text "/topic_local_pose_output")
      advertise (text "nav_msgs/Odometry") local_pose
      angular_accel ← own_text (text "/topic_local_pose_angular_accel_output")
      advertise (text "geometry_msgs/AccelWithCovarianceStamped") angular_accel
      call_diagnostics q.common
      change (show_ready q.common)

    unfoldable pub run_loop1 : Base → State → State × Bool
    run_loop1 b d = (update_process q.common d, true)

    unfoldable pub fuser_program : (ℕ → List Imu) → State → Program (Members P (Unit {0})) Sent
    unfolding process_program
    fuser_program arrivals constructed =
        process_program q.common set_up run_loop1 quiet (λ d. receive (arrivals d.reads) d)
          constructed
