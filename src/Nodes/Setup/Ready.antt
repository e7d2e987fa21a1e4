-- ===== src/Nodes/Setup/Ready.antt =====
-- What a start of a node needs from an `init` that is written in the calls of Nodes/Setup.
use robot_framework_ros.Prelude.{
  Option-cases, Text, ℕ, suc, ◌≡◌, ◌∙◌, ◌≢◌, inl, inr, Bool, true, false, some, [],
}
use robot_framework_ros.Platform.{Platform}
use robot_framework_ros.Messages.{state_initializing}
use robot_framework_ros.BaseNode.State.{Base, Derived, Node, Methods}
use robot_framework_ros.BaseNode.Names.{get_config_path}
use robot_framework_ros.BaseNode.Init.{base_init}
use robot_framework_ros.BaseNode.Lifecycle.{init_base_node_diagnostics}
use robot_framework_ros.BaseNode.Run.{main_loop}
use robot_framework_ros.Nodes.Process.{Process, Members, set_running, start}
use robot_framework_ros.Nodes.Startup.{
  base_init-state, init_base_node_diagnostics_lem, IsReady, IsReady-goes_on,
}
use robot_framework_ros.Nodes.Setup.Leads.{
  Holds, Leads, checked-Leads, required-Leads, result-Holds, unread-Leads,
}
use robot_framework_ros.Nodes.Setup.{
  Setup, gets, unread, result, change, own_text, text_at, real_at, passed, advertise, subscribe,
  call_base_init, config_path, call_process, call_diagnostics,
}

-- How far an `init` has come.
pub data Stage : Type 0 where
  fresh initializing ready : Stage

module _ ⦃p : Platform⦄ where
  abbrev pub Reached : Stage → Base → Type 0
  Reached fresh b = Unit
  Reached initializing b = b.node_state.state ≡ state_initializing
  Reached ready b = (b.node_state.state ≡ state_initializing) × (b.base_diagnostics ≢ [])

  pub record At {U E : Type 0} (s : Stage) (n : Node U E) : Type 0 where
    pub at : Reached s n.base

  pub config_path-Leads :
      {U E : Type 0} {P : Node U E → Type 0} (ids : Text × Text × Text)
      → Leads P (config_path ids) P
  unfolding config_path
  config_path-Leads (system, subsystem, process) = record {
    leads = λ n x. elim (Option-cases (get_config_path n.base system subsystem process)) [
      | inl e ↦ rw (e, config_path, Holds) tt
      | inr (path, e) ↦ rw (e, config_path, Holds) x
    ];
  }

  module _ {U E : Type 0} {s : Stage} where
    pub gets-At : {A : Type 0} (f : Node U E → A) → Leads (At s) (gets f) (At s)
    unfolding gets
    gets-At f = record { leads = λ n x. x }

    pub change-At : (f : Derived U E → Derived U E) → Leads (At s) (change f) (At s)
    unfolding change
    change-At f = record { leads = λ n x. record { at = x.at } }

    pub advertise-At :
        (datatype topic : Text) → Leads (At s) (advertise {U = U} {E = E} datatype topic) (At s)
    unfolding advertise
    advertise-At datatype topic = record { leads = λ n x. record { at = x.at } }

    pub subscribe-At : (topic : Text) → Leads (At s) (subscribe {U = U} {E = E} topic) (At s)
    unfolding subscribe
    subscribe-At topic = record { leads = λ n x. record { at = x.at } }

    pub config_path-At :
        (ids : Text × Text × Text) → Leads (At {U = U} {E = E} s) (config_path ids) (At s)
    config_path-At ids = config_path-Leads ids

  module _ {U E : Type 0} where
    pub call_base_init-At : Leads (At {U = U} {E = E} fresh) call_base_init (At initializing)
    unfolding call_base_init
    call_base_init-At = checked-Leads base_init (λ n x h. record { at = (base_init-state n h).0 })

    pub At-IsReady : (n : Node U E) → At ready n → IsReady n
    At-IsReady n x = record { state = x.at.0; diagnostics = x.at.1 }

  module _ {U E : Type 0} {s : Stage} where
    pub text_at-At : (name : Text) → Leads (At {U = U} {E = E} s) (text_at name) (At s)
    unfolding text_at
    text_at-At name = required-Leads _

    pub real_at-At : (name : Text) → Leads (At {U = U} {E = E} s) (real_at name) (At s)
    unfolding real_at
    real_at-At name = required-Leads _

    pub passed-At : {A : Type 0} (a : A × Bool) → Leads (At {U = U} {E = E} s) (passed a) (At s)
    unfolding passed
    passed-At (a, true) = record { leads = λ n x. x }
    passed-At (a, false) = record { leads = λ n x. tt }

  module _ {U E : Type 0} where
    pub result-IsReady :
        (init : Setup (Node U E) (Unit {0})) (n n' : Node U E)
        → Leads (At fresh) init (At ready)
        → result (init n) ≡ some (n', true)
        → IsReady n'
    result-IsReady init n n' h e =
        At-IsReady n' (result-Holds (At ready) (init n) n' e (h.leads n (record { at = tt })))

    -- The base diagnostics, whatever their result.
    pub unread_diagnostics-At :
        (system subsystem process : ℕ)
        → Leads
            (At {U = U} {E = E} initializing)
            (unread (λ n.
              let (b, status) = init_base_node_diagnostics n.base system subsystem process in
              (record n { base = b }, status)))
            (At ready)
    unread_diagnostics-At system subsystem process = unread-Leads _ (λ n x.
        let (some_left, same) = init_base_node_diagnostics_lem n.base system subsystem process in
        record { at = (same ∙ x.at, some_left) })

  module _ {P M E : Type 0} where
    pub own_text-At :
        {s : Stage} (name : Text) → Leads (At {U = Members P M} {E = E} s) (own_text name) (At s)
    unfolding own_text
    own_text-At name = required-Leads _

    pub call_process-At :
        {s : Stage} (call : P → P × Bool)
        → Leads (At {U = Members P M} {E = E} s) (call_process call) (At s)
    unfolding call_process
    call_process-At call = checked-Leads _ (λ n x h. record { at = x.at })

    pub call_diagnostics-At :
        (q : Process P)
        → Leads (At {U = Members P M} {E = E} initializing) (call_diagnostics q) (At ready)
    unfolding call_diagnostics
    call_diagnostics-At q = checked-Leads _ (λ n x h.
        let y = n.derived.own.process in
        let (some_left, same) =
          init_base_node_diagnostics_lem n.base (q.system_id y) (q.subsystem_id y)
            (q.process_id y) in
        record { at = (same ∙ x.at, some_left) })

    -- An `init` that leads to the stage `ready`, then `start` and any number of rounds.
    pub prepared-goes_on :
        (init : Setup (Node (Members P M) E) (Unit {0})) (m : Methods (Members P M) E)
        (n n' : Node (Members P M) E) (rounds : ℕ)
        → Leads (At fresh) init (At ready)
        → ((x : Node (Members P M) E) → m.start x ≡ start x)
        → result (init n) ≡ some (n', true)
        → ((m.start n').1 ≡ true) × ((main_loop (suc rounds) m (m.start n').0).1 ≡ true)
    unfolding start
    prepared-goes_on init m n n' rounds h same e =
        IsReady-goes_on m (set_running true) n' rounds same (result-IsReady init n n' h e)
