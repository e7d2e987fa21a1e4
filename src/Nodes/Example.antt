-- ===== src/Nodes/Example.antt =====
-- `ExampleNode` of core/ExampleNode. Its `main` asks `kill_node` where the others ask `ros::ok()`,
-- and has no `stop`.
use robot_framework_ros.Prelude.{text, ℕ, suc, ◌≡◌, refl, Bool, true, some, [], ◌∷◌}
use robot_framework_ros.Core.{DiagnosticMsg}
use robot_framework_ros.Platform.{Platform}
use robot_framework_ros.BaseNode.State.{Base, Derived, Node, set_diagnostics}
use robot_framework_ros.BaseNode.Lifecycle.{init_base_node_diagnostics, base_start}
use robot_framework_ros.BaseNode.Run.{Program, main_loop}
use robot_framework_ros.Nodes.Startup.{IsReady-goes_on}
use robot_framework_ros.Nodes.Setup.{
  Setup, ◌>>=◌, ◌>>◌, call_base_init, config_path, unread, result,
}
use robot_framework_ros.Nodes.Setup.Leads.{Leads, ◌▷◌}
use robot_framework_ros.Nodes.Setup.Ready.{
  fresh, ready, At, call_base_init-At, config_path-At, unread_diagnostics-At, result-IsReady,
}

module _ ⦃p : Platform⦄ where
  abbrev pub ExampleState : Type 0
  ExampleState = Derived (Unit {0}) (Unit {0})

  abbrev pub ExampleNode : Type 0
  ExampleNode = Node (Unit {0}) (Unit {0})

  unfoldable pub set_up : Setup ExampleNode (Unit {0})
  set_up = do
    call_base_init
    path ← config_path (text "example_system", text "example_subsystem", text "example_process")
    unread (λ n.
        let (b, status) = init_base_node_diagnostics n.base 0 0 0 in
        (record n { base = b }, status))

  abbrev pub quiet : Base → ExampleState → ExampleState × Bool
  quiet b d = (d, true)

  abbrev pub test_diagnostic : DiagnosticMsg
  test_diagnostic = record {
    system_id = 0;
    subsystem_id = 0;
    process_id = 0;
    diagnostic_type = p.type_software;
    level = p.level_info;
    diagnostic_message = p.message_initializing;
    description = text "Test";
  }

  unfoldable pub run_10hz : Base → ExampleState → ExampleState × Bool
  run_10hz b d = (set_diagnostics (test_diagnostic ∷ []) d, true)

  unfoldable pub example_program : ExampleState → Program (Unit {0}) (Unit {0})
  unfolding base_start
  example_program constructed = record {
    constructed = constructed;
    init = λ n. result (set_up n);
    methods = record {
      start = base_start;
      run_100hz = quiet;
      run_10hz = run_10hz;
      run_1hz = quiet;
      run_01hz = quiet;
      run_001hz = quiet;
      run_loop1 = quiet;
      run_loop2 = quiet;
      run_loop3 = quiet;
      spin_once = λ b d. d;
    };
    stop = λ d. d;
  }

  set_up-At : Leads (At fresh) set_up (At ready)
  unfolding set_up
  set_up-At = call_base_init-At ▷ λ _. config_path-At _ ▷ λ path. unread_diagnostics-At 0 0 0

  -- When `init` of the example node succeeds, `start` succeeds and no `update` returns false, though
  -- `init` does not look at the result of `initBaseNodeDiagnostics`.
  pub example_program-goes_on :
      (constructed : ExampleState) (n n' : ExampleNode) (rounds : ℕ)
      → (example_program constructed).init n ≡ some (n', true)
      → let m = (example_program constructed).methods in
        ((m.start n').1 ≡ true) × ((main_loop (suc rounds) m (m.start n').0).1 ≡ true)
  unfolding example_program
  example_program-goes_on constructed n n' rounds e =
      IsReady-goes_on (example_program constructed).methods (λ d. d) n' rounds (λ x. refl)
        (result-IsReady set_up n n' set_up-At e)
