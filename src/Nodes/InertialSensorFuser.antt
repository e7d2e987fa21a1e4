-- ===== src/Nodes/InertialSensorFuser.antt =====
-- `InertialSensorFuserNode` of Systems/Pose/Subsystems/LocalPose/Nodes/InertialSensorFuser. The
-- output `overran` marks that a covariance of the process was written past the end of its array,
-- after which the behaviour of the source is undefined.
pub mod Fusion
use robot_framework_ros.Prelude.{Text, text, ℕ, Bool, true, Option, none, some, List, [], ◌∷◌}
use robot_framework_ros.Platform.{Platform}
use robot_framework_ros.Translate.Sensor.{Imu, ImuMsg, imu_to_core, imu_to_ros}
use robot_framework_ros.BaseNode.State.{Base, Derived, Node, emit, sent}
use robot_framework_ros.BaseNode.Run.{Program}
use robot_framework_ros.Nodes.Process.{
  Process, Members, with_process, update_process, show_ready, quiet,
}
use robot_framework_ros.Nodes.Program.{process_program}
use robot_framework_ros.Nodes.Setup.{
  Setup, ◌>>=◌, ◌>>◌, call_base_init, call_process, call_diagnostics, config_path, own_text,
  advertise, subscribe, change,
}

module _ ⦃p : Platform⦄ where
  -- `BasicInertialSensorFuserProcess`, of the core library; `get_machine_inertial_data` gives `none`
  -- for false.
  pub record SensorFuser (P : Type 0) : Type 0 where
    pub common : Process P
    pub new_process : P
    pub init : ℕ → P → P × Bool
    pub new_imu_data : ℕ → ImuMsg → P → P
    pub get_machine_inertial_data : P → P × Option ImuMsg

  pub data Sent : Type 0 where
    inertial_sent : Imu → Sent
    overran : Sent

  module _ {P : Type 0} (q : SensorFuser P) where
    abbrev pub State : Type 0
    State = Derived (Members P (Unit {0})) Sent

    abbrev pub FuserNode : Type 0
    FuserNode = Node (Members P (Unit {0})) Sent

    -- The message of the process in the frame of the one that came.
    unfoldable pub send_inertial : Text → ImuMsg → State → State
    send_inertial frame reading d = elim (imu_to_ros reading) [
      | none ↦ emit (sent overran) d
      | some msg ↦
          let header = record (msg.header) { frame_id = frame } in
          emit (sent (inertial_sent (record msg { header = header }))) d
    ]

    unfoldable pub imu_callback : Imu → State → State
    imu_callback msg d =
        let (x, reading) =
          q.get_machine_inertial_data (q.new_imu_data 0 (imu_to_core msg) d.own.process) in
        let d' : State = with_process x d in
        elim reading [ none ↦ d' | some r ↦ send_inertial msg.header.frame_id r d' ]

    unfoldable pub receive : List Imu → State → State
    unfolding imu_callback
    receive [] d = d
    receive (msg ∷ rest) d = receive rest (imu_callback msg d)

    -- `load_config` only makes a path, for the log.
    unfoldable pub set_up : (Text × Text × Text) → Setup FuserNode (Unit {0})
    set_up ids = do
      call_base_init
      change (with_process q.new_process)
      call_process (q.init 1)
      path ← config_path ids
      imu_input ← own_text (text "/topic_imu1_input")
      subscribe imu_input
      machine_inertial ← own_text (text "/topic_machine_inertial_output")
      advertise (text "sensor_msgs/Imu") machine_inertial
      call_diagnostics q.common
      change (show_ready q.common)

    unfoldable pub run_loop1 : Base → State → State × Bool
    run_loop1 b d = (update_process q.common d, true)

    unfoldable pub fuser_program :
        (Text × Text × Text) → (ℕ → List Imu) → State → Program (Members P (Unit {0})) Sent
    unfolding process_program
    fuser_program ids arrivals constructed =
        process_program q.common (set_up ids) run_loop1 quiet (λ d. receive (arrivals d.reads) d)
          constructed
