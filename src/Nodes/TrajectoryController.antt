-- ===== src/Nodes/TrajectoryController.antt =====
-- `TrajectoryControllerNode` of
-- Systems/Navigation/Subsystems/NavigationExecutor/Nodes/TrajectoryController.
pub mod Config
pub mod Commands
use robot_framework_ros.Prelude.{Text, text, ℕ, Bool, true, Option, none, some, List, [], ◌∷◌, ◌++◌}
use robot_framework_ros.Platform.{Platform}
use robot_framework_ros.Translate.Geometry.{
  Twist, TwistMsg, Odometry, OdomMsg, twist_to_core, twist_to_ros, odometry_to_core,
}
use robot_framework_ros.BaseNode.State.{Base, Derived, Node, emit, sent}
use robot_framework_ros.BaseNode.Run.{Program}
use robot_framework_ros.Nodes.Process.{
  Process, Members, with_process, update_process, show_ready, quiet,
}
use robot_framework_ros.Nodes.Program.{process_program}
use robot_framework_ros.Nodes.Setup.{
  ◌>>=◌, ◌>>◌, Setup, call_base_init, call_process, call_diagnostics, own_text, advertise,
  subscribe, change, config_path, real_at, passed,
}

module _ ⦃p : Platform⦄ where
  -- The process and its configuration classes, of the core library. `pid_config` makes a
  -- `PIDControllerConfig` and sets its parameters; `get_command` gives `none` for false.
  pub record Trajectory (P D C : Type 0) : Type 0 where
    pub common : Process P
    pub init : P → P × Bool
    pub new_desired_command : TwistMsg → P → P
    pub new_pose : OdomMsg → P → P
    pub pid_config : p.Real → p.Real → p.Real → p.Real → p.Real → p.Real → D
    pub new_config : C
    pub set_pid_controller_config : D → C → C × Bool
    pub set_config : C → P → P × Bool
    pub get_command : P → P × Option TwistMsg

  pub data Sent : Type 0 where
    command_sent : Twist → Sent

  pub data Incoming : Type 0 where
    desired_came : Twist → Incoming
    pose_came : Odometry → Incoming

  module _ {P D C : Type 0} (q : Trajectory P D C) where
    abbrev pub State : Type 0
    State = Derived (Members P (Unit {0})) Sent

    abbrev pub ControllerNode : Type 0
    ControllerNode = Node (Members P (Unit {0})) Sent

    abbrev pub desired_command_callback : Twist → P → P
    desired_command_callback msg x = q.new_desired_command (twist_to_core msg) x

    abbrev pub pose_callback : Odometry → P → P
    pose_callback msg x = q.new_pose (odometry_to_core msg) x

    unfoldable pub receive : List Incoming → State → State
    receive [] d = d
    receive (desired_came msg ∷ rest) d =
        receive rest (with_process (desired_command_callback msg d.own.process) d)
    receive (pose_came msg ∷ rest) d =
        receive rest (with_process (pose_callback msg d.own.process) d)

    unfoldable pub load_config : (Text × Text × Text) → Setup ControllerNode (Unit {0})
    load_config ids = do
      path ← config_path ids
      max_output ← real_at (path ++ text "/max_output")
      min_output ← real_at (path ++ text "/min_output")
      k_p ← real_at (path ++ text "/K_P")
      k_i ← real_at (path ++ text "/K_I")
      k_d ← real_at (path ++ text "/K_D")
      sensor_scale ← real_at (path ++ text "/sensor_scale")
      let pid_config = q.pid_config max_output min_output k_p k_i k_d sensor_scale
      config ← passed (q.set_pid_controller_config pid_config q.new_config)
      call_process (q.set_config config)

    unfoldable pub set_up : (Text × Text × Text) → Setup ControllerNode (Unit {0})
    set_up ids = do
      call_base_init
      call_process q.init
      load_config ids
      pose ← own_text (text "/topic_pose_input")
      call_diagnostics q.common
      subscribe pose
      desired_command ← own_text (text "/topic_command_throttle_input")
      subscribe desired_command
      command ← own_text (text "/topic_command_robot_output")
      advertise (text "geometry_msgs/Twist") command
      change (show_ready q.common)

    unfoldable pub run_loop1 : Base → State → State × Bool
    run_loop1 b d =
        let d1 = update_process q.common d in
        let (x, new_command) = q.get_command d1.own.process in
        let d2 = with_process x d1 in
        (
          elim new_command [
            | none ↦ d2
            | some msg ↦ emit (sent (command_sent (twist_to_ros msg))) d2
          ],
          true,
        )

    unfoldable pub controller_program :
        (Text × Text × Text) → (ℕ → List Incoming) → State → Program (Members P (Unit {0})) Sent
    unfolding process_program
    controller_program ids arrivals constructed =
        process_program q.common (set_up ids) run_loop1 quiet (λ d. receive (arrivals d.reads) d)
          constructed
