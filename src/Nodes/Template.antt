-- ===== src/Nodes/Template.antt =====
-- The node that templates/Node makes, for any name: `{{cookiecutter.Node}}Node.cpp`. Its
-- `load_config` is read as if it were declared for the class and declared its `status`.
use robot_framework_ros.Prelude.{Text, Bool, true}
use robot_framework_ros.Platform.{Platform}
use robot_framework_ros.BaseNode.State.{Base, Derived, Node}
use robot_framework_ros.BaseNode.Run.{Program}
use robot_framework_ros.Nodes.Process.{Process, Members, update_process, show_ready, quiet}
use robot_framework_ros.Nodes.Program.{process_program, GoesOn, process_program-GoesOn}
use robot_framework_ros.Nodes.Setup.{
  Setup, ◌>>=◌, ◌>>◌, call_base_init, call_process, call_diagnostics, config_path, change,
}
use robot_framework_ros.Nodes.Setup.Leads.{Leads, ◌▷◌}
use robot_framework_ros.Nodes.Setup.Ready.{
  fresh, initializing, ready, At, change-At, call_base_init-At, call_process-At,
  call_diagnostics-At, config_path-At,
}

module _ ⦃p : Platform⦄ where
  -- The process of the node.
  pub record Template (P : Type 0) : Type 0 where
    pub common : Process P
    pub init : P → P × Bool
    pub set_config : P → P × Bool

  module _ {P : Type 0} (q : Template P) where
    abbrev pub State : Type 0
    State = Derived (Members P (Unit {0})) (Unit {0})

    abbrev pub TemplateNode : Type 0
    TemplateNode = Node (Members P (Unit {0})) (Unit {0})

    unfoldable pub load_config : (Text × Text × Text) → Setup TemplateNode (Unit {0})
    load_config ids = do path ← config_path ids; call_process q.set_config

    unfoldable pub set_up : (Text × Text × Text) → Setup TemplateNode (Unit {0})
    set_up ids = do
      call_base_init
      call_process q.init
      load_config ids
      call_diagnostics q.common
      change (show_ready q.common)

    unfoldable pub run_loop1 : Base → State → State × Bool
    run_loop1 b d = (update_process q.common d, true)

    unfoldable pub template_program :
        (Text × Text × Text) → State → Program (Members P (Unit {0})) (Unit {0})
    unfolding process_program
    template_program ids constructed =
        process_program q.common (set_up ids) run_loop1 quiet (λ d. d) constructed

    load_config-At :
        (ids : Text × Text × Text) → Leads (At initializing) (load_config ids) (At initializing)
    unfolding load_config
    load_config-At ids = config_path-At _ ▷ λ path. call_process-At _

    set_up-At : (ids : Text × Text × Text) → Leads (At fresh) (set_up ids) (At ready)
    unfolding set_up
    set_up-At ids = call_base_init-At ▷ λ _.
        call_process-At _ ▷ λ _. load_config-At ids ▷ λ _. call_diagnostics-At _ ▷ λ _. change-At _

    -- When `init` of a node made from the template succeeds, `start` succeeds and no `update`
    -- returns false.
    pub template_program-GoesOn :
        (ids : Text × Text × Text) (constructed : State) → GoesOn (template_program ids constructed)
    unfolding template_program
    template_program-GoesOn ids constructed =
        process_program-GoesOn q.common (set_up ids) run_loop1 quiet _ constructed (set_up-At ids)
