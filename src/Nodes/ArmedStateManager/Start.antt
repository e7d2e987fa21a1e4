-- ===== src/Nodes/ArmedStateManager/Start.antt =====
-- What a successful `init` of the armed state manager leads to.
use robot_framework_ros.Prelude.{Text, ℕ, suc, ◌≡◌, refl, true, some, List}
use robot_framework_ros.Platform.{Platform}
use robot_framework_ros.BaseNode.Run.{main_loop}
use robot_framework_ros.Nodes.Setup.{result}
use robot_framework_ros.Nodes.Setup.Leads.{Leads, ◌▷◌, checked-Leads, required-Leads}
use robot_framework_ros.Nodes.Setup.Ready.{
  fresh, initializing, ready, At, change-At, advertise-At, call_base_init-At, call_process-At,
  call_diagnostics-At, config_path-At, prepared-goes_on,
}
use robot_framework_ros.Nodes.ArmedStateManager.{
  Manager, Incoming, State, ManagerNode, load_config, subscribe_all, check_subscribed,
  offer_service, set_up, manager_program,
}

module _ ⦃p : Platform⦄ {P : Type 0} (q : Manager P) where
  load_config-At :
      (ids : Text × Text × Text) → Leads (At initializing) (load_config q ids) (At initializing)
  unfolding load_config
  load_config-At ids =
      config_path-At _ ▷ λ path. required-Leads _ ▷ λ names. change-At _ ▷ λ _. call_process-At _

  subscribe_all-At : Leads (At initializing) (subscribe_all q) (At initializing)
  unfolding subscribe_all
  subscribe_all-At = record { leads = λ n x. record { at = x.at } }

  check_subscribed-At : Leads (At initializing) (check_subscribed q) (At initializing)
  unfolding check_subscribed
  check_subscribed-At = checked-Leads _ (λ n x h. x)

  offer_service-At : Leads (At initializing) (offer_service q) (At initializing)
  unfolding offer_service
  offer_service-At = record { leads = λ n x. record { at = x.at } }

  set_up-At : (ids : Text × Text × Text) → Leads (At fresh) (set_up q ids) (At ready)
  unfolding set_up
  set_up-At ids = call_base_init-At ▷ λ _. call_process-At _ ▷ λ _. load_config-At ids ▷ λ _.
      advertise-At _ _ ▷ λ _. subscribe_all-At ▷ λ _.
      check_subscribed-At ▷ λ _. offer_service-At ▷ λ _. call_diagnostics-At _ ▷ λ _. change-At _

  -- When `init` of the armed state manager succeeds, the node is ready: `start` succeeds, and after
  -- any positive number of rounds of the main loop no `update` has returned false, whatever the
  -- process, the messages and the clock do.
  pub manager_program-goes_on :
      (ids : Text × Text × Text) (arrivals : ℕ → List Incoming) (constructed : State q)
      (n n' : ManagerNode q) (rounds : ℕ)
      → result (set_up q ids n) ≡ some (n', true)
      → let m = (manager_program q ids arrivals constructed).methods in
        ((m.start n').1 ≡ true) × ((main_loop (suc rounds) m (m.start n').0).1 ≡ true)
  unfolding manager_program
  manager_program-goes_on ids arrivals constructed n n' rounds e =
      prepared-goes_on (set_up q ids) (manager_program q ids arrivals constructed).methods n n'
        rounds (set_up-At ids) (λ x. refl) e
