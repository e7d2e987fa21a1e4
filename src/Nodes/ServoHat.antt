-- ===== src/Nodes/ServoHat.antt =====
-- `ServoHatNode` of Systems/BaseMachine/Subsystems/BaseMachine/Nodes/HatNodes/ServoHat.
use robot_framework_ros.Prelude.{Text, text, ℕ, ◌%◌, ◌^◌, Bool, true, List, [], ◌∷◌}
use robot_framework_ros.Core.{ArmCommandMsg}
use robot_framework_ros.Platform.{Platform}
use robot_framework_ros.Messages.{ArmCommand}
use robot_framework_ros.Translate.Infrastructure.{arm_command_to_core}
use robot_framework_ros.BaseNode.State.{Base, Derived, Node}
use robot_framework_ros.BaseNode.Run.{Program}
use robot_framework_ros.Nodes.Process.{
  Process, Members, with_process, update_process, show_ready, quiet,
}
use robot_framework_ros.Nodes.Program.{process_program, GoesOn, process_program-GoesOn}
use robot_framework_ros.Nodes.Setup.{
  Setup, ◌>>=◌, ◌>>◌, call_base_init, call_process, call_diagnostics, own_text, config_path,
  subscribe, change,
}
use robot_framework_ros.Nodes.Setup.Leads.{Leads, ◌▷◌}
use robot_framework_ros.Nodes.Setup.Ready.{
  own_text-At, fresh, ready, At, change-At, subscribe-At, call_base_init-At, call_process-At,
  call_diagnostics-At, config_path-At,
}

module _ ⦃p : Platform⦄ where
  -- The process, of the core library.
  pub record Hat (P : Type 0) : Type 0 where
    pub common : Process P
    pub init : P → P × Bool
    pub update_robot_arm_command : ArmCommandMsg → P → P
    pub set_servo_value : ℕ → ℕ → P → P × Bool

  -- What `spinOnce` hands to the node; `drive_came` has the channel that the callback was bound to.
  pub data Incoming : Type 0 where
    command_came : ArmCommand → Incoming
    drive_came : p.Real → ℕ → Incoming

  module _ {P : Type 0} (q : Hat P) where
    abbrev pub State : Type 0
    State = Derived (Members P (Unit {0})) (Unit {0})

    abbrev pub HatNode : Type 0
    HatNode = Node (Members P (Unit {0})) (Unit {0})

    unfoldable pub drive_callback : p.Real → ℕ → P → P
    drive_callback value channel x = (q.set_servo_value channel (p.truncate value % 2 ^ 16) x).0

    unfoldable pub receive : List Incoming → State → State
    receive [] d = d
    receive (command_came msg ∷ rest) d =
        receive rest
          (with_process (q.update_robot_arm_command (arm_command_to_core msg) d.own.process) d)
    receive (drive_came value channel ∷ rest) d =
        receive rest (with_process (drive_callback value channel d.own.process) d)

    -- `init`. `load_config` only makes a path, for the log.
    unfoldable pub set_up : (Text × Text × Text) → Setup HatNode (Unit {0})
    set_up ids = do
      call_base_init
      call_process q.init
      path ← config_path ids
      call_diagnostics q.common
      subscribe (text "/arm_command")
      left ← own_text (text "/topic_left_drive")
      subscribe left
      right ← own_text (text "/topic_right_drive")
      subscribe right
      change (show_ready q.common)

    unfoldable pub run_loop1 : Base → State → State × Bool
    run_loop1 b d = (update_process q.common d, true)

    unfoldable pub hat_program :
        (Text × Text × Text)
        → (ℕ → List Incoming)
        → State
        → Program (Members P (Unit {0})) (Unit {0})
    unfolding process_program
    hat_program ids arrivals constructed =
        process_program q.common (set_up ids) run_loop1 quiet (λ d. receive (arrivals d.reads) d)
          constructed

    set_up-At : (ids : Text × Text × Text) → Leads (At fresh) (set_up ids) (At ready)
    unfolding set_up
    set_up-At ids = call_base_init-At ▷ λ _. call_process-At _ ▷ λ _. config_path-At _ ▷ λ path.
        call_diagnostics-At _ ▷ λ _. subscribe-At _ ▷ λ _. own_text-At _ ▷ λ left.
        subscribe-At _ ▷ λ _. own_text-At _ ▷ λ right. subscribe-At _ ▷ λ _. change-At _

    -- When `init` of the servo hat succeeds, `start` succeeds and no `update` returns false.
    pub hat_program-GoesOn :
        (ids : Text × Text × Text) (arrivals : ℕ → List Incoming) (constructed : State)
        → GoesOn (hat_program ids arrivals constructed)
    unfolding hat_program
    hat_program-GoesOn ids arrivals constructed =
        process_program-GoesOn q.common (set_up ids) run_loop1 quiet _ constructed (set_up-At ids)
