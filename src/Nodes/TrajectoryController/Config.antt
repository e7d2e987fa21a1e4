-- ===== src/Nodes/TrajectoryController/Config.antt =====
-- The configuration and the start of the trajectory controller.
use robot_framework_ros.Prelude.{Text, text, ℕ, ◌≡◌, ap, ◌↔◌, true, some, List, ◌++◌}
use robot_framework_ros.Platform.{Platform}
use robot_framework_ros.BaseNode.Names.{get_config_path}
use robot_framework_ros.Nodes.Process.{with_process, quiet}
use robot_framework_ros.Nodes.Setup.{done}
use robot_framework_ros.Nodes.Setup.Leads.{Leads, ◌▷◌}
use robot_framework_ros.Nodes.Setup.Ready.{
  own_text-At, fresh, initializing, ready, At, change-At, advertise-At, subscribe-At,
  call_base_init-At, call_process-At, call_diagnostics-At, config_path-At, real_at-At, passed-At,
}
use robot_framework_ros.Nodes.Setup.Done.{
  real_at-done, config_path-done, call_process-done, passed_bind-done,
}
use robot_framework_ros.Nodes.Program.{GoesOn, process_program-GoesOn}
use robot_framework_ros.Nodes.TrajectoryController.{
  run_loop1, Trajectory, State, ControllerNode, Incoming, load_config, set_up, controller_program,
}

module _ ⦃p : Platform⦄ {P D C : Type 0} (q : Trajectory P D C) where
  load_config-At :
      (ids : Text × Text × Text) → Leads (At initializing) (load_config q ids) (At initializing)
  unfolding load_config
  load_config-At ids = config_path-At _ ▷ λ path. real_at-At _ ▷ λ max_output.
      real_at-At _ ▷ λ min_output. real_at-At _ ▷ λ k_p. real_at-At _ ▷ λ k_i.
      real_at-At _ ▷ λ k_d. real_at-At _ ▷ λ sensor_scale. passed-At _ ▷ λ config. call_process-At _

  -- The node after a configuration under a path.
  pub record IsConfigured (path : Text) (n n' : ControllerNode q) : Type 0 where
    pub max_output : p.Real
    pub min_output : p.Real
    pub k_p : p.Real
    pub k_i : p.Real
    pub k_d : p.Real
    pub sensor_scale : p.Real
    pub config : C
    pub max_output_set : p.param_real (path ++ text "/max_output") ≡ some max_output
    pub min_output_set : p.param_real (path ++ text "/min_output") ≡ some min_output
    pub k_p_set : p.param_real (path ++ text "/K_P") ≡ some k_p
    pub k_i_set : p.param_real (path ++ text "/K_I") ≡ some k_i
    pub k_d_set : p.param_real (path ++ text "/K_D") ≡ some k_d
    pub sensor_scale_set : p.param_real (path ++ text "/sensor_scale") ≡ some sensor_scale
    pub accepted :
        q.set_pid_controller_config
          (q.pid_config max_output min_output k_p k_i k_d sensor_scale)
          q.new_config
        ≡ (config, true)
    pub taken : (q.set_config config n.derived.own.process).1 ≡ true
    pub node : n' ≡ record n {
      derived = with_process (q.set_config config n.derived.own.process).0 n.derived;
    }

  -- `load_config` of the trajectory controller succeeds exactly when the configuration path is
  -- known, the six parameters under it are set, and the controller configuration made of them and
  -- then the process accept them; it changes nothing but the process then.
  pub load_config_iff :
      (s t x : Text) (n n' : ControllerNode q)
      → (load_config q (s, t, x) n ≡ done tt n')
        ↔ ((path : Text) × (get_config_path n.base s t x ≡ some path) × IsConfigured path n n')
  unfolding load_config
  load_config_iff s t x n n' = (
    λ e.
        let (path, known, e1) = (config_path-done s t x _ n n' tt).0 e in
        let (max_output, h1, e2) = (real_at-done _ _ n n' tt).0 e1 in
        let (min_output, h2, e3) = (real_at-done _ _ n n' tt).0 e2 in
        let (k_p, h3, e4) = (real_at-done _ _ n n' tt).0 e3 in
        let (k_i, h4, e5) = (real_at-done _ _ n n' tt).0 e4 in
        let (k_d, h5, e6) = (real_at-done _ _ n n' tt).0 e5 in
        let (sensor_scale, h6, e7) = (real_at-done _ _ n n' tt).0 e6 in
        let made =
          q.set_pid_controller_config (q.pid_config max_output min_output k_p k_i k_d sensor_scale)
            q.new_config in
        let (ok, e8) = (passed_bind-done _ _ n n' tt).0 e7 in
        let (taken, node) = (call_process-done _ n n').0 e8 in
        (
          path,
          known,
          record {
            max_output = max_output;
            min_output = min_output;
            k_p = k_p;
            k_i = k_i;
            k_d = k_d;
            sensor_scale = sensor_scale;
            config = made.0;
            max_output_set = h1;
            min_output_set = h2;
            k_p_set = h3;
            k_i_set = h4;
            k_d_set = h5;
            sensor_scale_set = h6;
            accepted = ap (λ status. (made.0, status)) ok;
            taken = taken;
            node = node;
          },
        ),
    λ (path, known, c). (config_path-done s t x _ n n' tt).1 (
      path,
      known,
      (real_at-done _ _ n n' tt).1 (
        c.max_output,
        c.max_output_set,
        (real_at-done _ _ n n' tt).1 (
          c.min_output,
          c.min_output_set,
          (real_at-done _ _ n n' tt).1 (
            c.k_p,
            c.k_p_set,
            (real_at-done _ _ n n' tt).1 (
              c.k_i,
              c.k_i_set,
              (real_at-done _ _ n n' tt).1 (
                c.k_d,
                c.k_d_set,
                (real_at-done _ _ n n' tt).1 (
                  c.sensor_scale,
                  c.sensor_scale_set,
                  (passed_bind-done _ _ n n' tt).1 (
                    ap (λ r. r.1) c.accepted,
                    rw c.accepted ((call_process-done _ n n').1 (c.taken, c.node)),
                  ),
                ),
              ),
            ),
          ),
        ),
      ),
    ),
  )

  set_up-At : (ids : Text × Text × Text) → Leads (At fresh) (set_up q ids) (At ready)
  unfolding set_up
  set_up-At ids = call_base_init-At ▷ λ _. call_process-At _ ▷ λ _. load_config-At _ ▷ λ _.
      own_text-At _ ▷ λ pose. call_diagnostics-At _ ▷ λ _. subscribe-At _ ▷ λ _.
      own_text-At _ ▷ λ desired_command.
      subscribe-At _ ▷ λ _. own_text-At _ ▷ λ command. advertise-At _ _ ▷ λ _. change-At _

  -- When `init` of the trajectory controller succeeds, `start` succeeds and no `update` returns
  -- false.
  pub controller_program-GoesOn :
      (ids : Text × Text × Text) (arrivals : ℕ → List Incoming) (constructed : State q)
      → GoesOn (controller_program q ids arrivals constructed)
  unfolding controller_program
  controller_program-GoesOn ids arrivals constructed =
      process_program-GoesOn q.common (set_up q ids) (run_loop1 q) quiet _ constructed
        (set_up-At ids)
