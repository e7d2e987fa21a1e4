-- ===== src/Nodes/ArmedStateManager/Subscriptions.antt =====
-- Which topics the armed state manager subscribes to.
use robot_framework_ros.Prelude.{
  Text, text, ℕ, ◌≡◌, refl, sym, ap, ◌∙◌, ◌≢◌, Bool, true, some, List, [], ◌∷◌, ◌++◌, arith,
}
use mathlib.Core.List.{append-nil, append_assoc}
use robot_framework_ros.Platform.{Platform}
use robot_framework_ros.BaseNode.State.{Base, set_ready_to_arm}
use robot_framework_ros.BaseNode.Init.{base_init, finish_init, advertise_all}
use robot_framework_ros.BaseNode.Lifecycle.{init_base_node_diagnostics}
use robot_framework_ros.Nodes.Process.{show_ready}
use robot_framework_ros.Nodes.Setup.{
  call_base_init, call_process, call_diagnostics, change, advertise, result,
}
use robot_framework_ros.Nodes.Setup.Leads.{Leads, ◌▷◌, checked-Leads, required-Leads, result-Holds}
use robot_framework_ros.Nodes.Setup.Ready.{config_path-Leads}
use robot_framework_ros.Nodes.ArmedStateManager.{
  Manager, State, keep_names, ManagerNode, load_config, subscribe_each, subscribe_all,
  check_subscribed, offer_service, set_up,
}

module _ ⦃p : Platform⦄ {P : Type 0} (q : Manager P) where
  -- The topics of a list of nodes.
  abbrev pub ready_topics : Text → List Text → List Text
  ready_topics ns [] = []
  ready_topics ns (name ∷ names) = (ns ++ (name ++ text "/ready_to_arm")) ∷ ready_topics ns names

  subscribe_each_lem :
      (ns : Text) (names : List Text) (d : State q)
      → let d' = subscribe_each q ns names d in
        (d'.own.more.ready_to_arm_subs ≡ d.own.more.ready_to_arm_subs ++ ready_topics ns names)
        × (d'.own.more.nodes_to_monitor ≡ d.own.more.nodes_to_monitor)
  unfolding subscribe_each
  subscribe_each_lem ns [] d = (sym (append-nil _), refl)
  subscribe_each_lem ns (name ∷ names) d =
      let topic = ns ++ (name ++ text "/ready_to_arm") in
      let (e, f) = subscribe_each_lem ns names _ in
      (e ∙ append_assoc d.own.more.ready_to_arm_subs (topic ∷ []) (ready_topics ns names), f)

  -- The subscriptions, at the places of `init` before and after they are made.
  abbrev HasSubs : List Text → ManagerNode q → Type 0
  HasSubs topics n = n.derived.own.more.ready_to_arm_subs ≡ topics

  abbrev pub AllSubscribed : ManagerNode q → Type 0
  AllSubscribed n =
      HasSubs (ready_topics n.base.robot_namespace n.derived.own.more.nodes_to_monitor) n

  record Before (n : ManagerNode q) : Type 0 where
    pub before : HasSubs [] n

  record After (n : ManagerNode q) : Type 0 where
    pub after : AllSubscribed n

  record Done (n : ManagerNode q) : Type 0 where
    pub all : AllSubscribed n
    pub some_left : n.derived.own.more.ready_to_arm_subs ≢ []

  base_init-Before : (n : ManagerNode q) → Before n → Before (base_init n).0
  unfolding base_init finish_init advertise_all
  base_init-Before n h = ground (arith, h.before)

  call_process-Before : (call : P → P × Bool) → Leads Before (call_process call) Before
  unfolding call_process
  call_process-Before call = checked-Leads _ (λ n x h. record { before = x.before })

  keep_names-Before : (names : List Text) → Leads Before (change (keep_names q names)) Before
  unfolding change
  keep_names-Before names = record { leads = λ n x. record { before = x.before } }

  load_config-Before : (ids : Text × Text × Text) → Leads Before (load_config q ids) Before
  unfolding load_config
  load_config-Before ids = config_path-Leads ids ▷ λ path.
      required-Leads _ ▷ λ names. keep_names-Before names ▷ λ _. call_process-Before _

  advertise-Before : (datatype topic : Text) → Leads Before (advertise datatype topic) Before
  unfolding advertise
  advertise-Before datatype topic = record { leads = λ n x. record { before = x.before } }

  subscribe_all-After : Leads Before (subscribe_all q) After
  unfolding subscribe_all
  subscribe_all-After = record {
    leads = λ n x.
        let names = n.derived.own.more.nodes_to_monitor in
        let ns = n.base.robot_namespace in
        let (topics, same) = subscribe_each_lem ns names n.derived in
        record {
          after =
              topics
              ∙ ap (λ l. l ++ ready_topics ns names) x.before
              ∙ ap (ready_topics ns) (sym same);
        };
  }

  check_subscribed-Done : Leads After (check_subscribed q) Done
  unfolding check_subscribed
  check_subscribed-Done =
      checked-Leads _ (λ n x h. record { all = x.after; some_left = ground (arith, h) })

  offer_service-Done : Leads Done (offer_service q) Done
  unfolding offer_service
  offer_service-Done = record { leads = λ n x. record { all = x.all; some_left = x.some_left } }

  diagnostics-namespace :
      (b : Base) (system subsystem process : ℕ)
      → (init_base_node_diagnostics b system subsystem process).0.robot_namespace
        ≡ b.robot_namespace
  unfolding init_base_node_diagnostics
  diagnostics-namespace b system subsystem process = ground arith

  call_diagnostics-Done : Leads Done (call_diagnostics q.common) Done
  unfolding call_diagnostics
  call_diagnostics-Done = checked-Leads _ (λ n x h.
      let names = n.derived.own.more.nodes_to_monitor in
      record {
        all = x.all ∙ ap (λ ns. ready_topics ns names) (sym (diagnostics-namespace n.base _ _ _));
        some_left = x.some_left;
      })

  show_ready-Done : Leads Done (change (show_ready q.common)) Done
  unfolding change set_ready_to_arm
  show_ready-Done = record { leads = λ n x. record { all = x.all; some_left = x.some_left } }

  set_up-Done : (ids : Text × Text × Text) → Leads Before (set_up q ids) Done
  unfolding set_up call_base_init
  set_up-Done ids = checked-Leads base_init (λ n x h. base_init-Before n x) ▷ λ _.
      call_process-Before _ ▷ λ _. load_config-Before ids ▷ λ _. advertise-Before _ _ ▷ λ _.
      subscribe_all-After ▷ λ _. check_subscribed-Done ▷ λ _.
      offer_service-Done ▷ λ _. call_diagnostics-Done ▷ λ _. show_ready-Done

  -- When `init` of an armed state manager without subscriptions succeeds, the node has subscribed to
  -- exactly the ready-to-arm topics of the nodes to monitor, in their order, under the namespace
  -- that it found, and there is at least one.
  pub set_up-AllSubscribed :
      (ids : Text × Text × Text) (n n' : ManagerNode q)
      → n.derived.own.more.ready_to_arm_subs ≡ []
      → result (set_up q ids n) ≡ some (n', true)
      → AllSubscribed n' × (n'.derived.own.more.nodes_to_monitor ≢ [])
  set_up-AllSubscribed ids n n' none_before e =
      let d =
        result-Holds Done (set_up q ids n) n' e
          ((set_up-Done ids).leads n (record { before = none_before })) in
      (
        d.all,
        λ none_left. d.some_left (d.all ∙ ap (ready_topics n'.base.robot_namespace) none_left),
      )
