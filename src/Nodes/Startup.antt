-- ===== src/Nodes/Startup.antt =====
-- What the start of a node needs from its `init`.
use robot_framework_ros.Prelude.{
  Option-cases, ℕ, suc, ◌≡◌, refl, ◌≢◌, inl, inr, true, some, List, [], ◌∷◌, arith,
}
use robot_framework_ros.Prelude.Table.{lookup, insert, number_key}
use robot_framework_ros.Core.{DiagnosticMsg}
use robot_framework_ros.Platform.{Platform}
use robot_framework_ros.Messages.{state_initializing}
use robot_framework_ros.BaseNode.State.{Base, Derived, Node, Methods}
use robot_framework_ros.BaseNode.Lifecycle.{
  request_node_statechange, init_base_node_diagnostics, base_start,
}
use robot_framework_ros.BaseNode.Init.{base_init, finish_init, load_rates}
use robot_framework_ros.BaseNode.Run.{main_loop}
use robot_framework_ros.BaseNode.Run.Liveness.{base_start_iff, main_loop_goes_on}

module _ ⦃p : Platform⦄ where
  module _ {U E : Type 0} where
    -- A successful `base_init` leaves the node INITIALIZING and sets up no base diagnostic.
    pub base_init-state :
        (n : Node U E)
        → (base_init n).1 ≡ true
        → let b = (base_init n).0.base in
          (b.node_state.state ≡ state_initializing) × (b.base_diagnostics ≡ n.base.base_diagnostics)
    unfolding base_init finish_init load_rates request_node_statechange
    base_init-state n h = ground arith

    -- `base_init` sets up no base diagnostic.
    pub base_init-diagnostics :
        (n : Node U E) → (base_init n).0.base.base_diagnostics ≡ n.base.base_diagnostics
    unfolding base_init finish_init load_rates request_node_statechange
    base_init-diagnostics n = ground arith

  insert-ne : (x : ℕ) (v : DiagnosticMsg) (m : List (ℕ × DiagnosticMsg)) → insert x v m ≢ []
  unfolding insert
  insert-ne x v [] = ground arith
  insert-ne x v ((y, w) ∷ m) = ground arith

  lookup-ne :
      (x : ℕ) (v : DiagnosticMsg) (m : List (ℕ × DiagnosticMsg)) → lookup x m ≡ some v → m ≢ []
  unfolding lookup
  lookup-ne x v [] h = ground arith
  lookup-ne x v ((y, w) ∷ m) h = ground arith

  -- `initBaseNodeDiagnostics` always leaves a diagnostic, and the state alone.
  pub init_base_node_diagnostics_lem :
      (b : Base) (system subsystem process : ℕ)
      → let b' = (init_base_node_diagnostics b system subsystem process).0 in
        (b'.base_diagnostics ≢ []) × (b'.node_state.state ≡ b.node_state.state)
  unfolding init_base_node_diagnostics
  init_base_node_diagnostics_lem b system subsystem process =
      let d = p.make_diagnostic system subsystem process p.type_timing in
      elim (Option-cases (lookup d.diagnostic_type b.base_diagnostics)) [
        | inl e ↦
            rw (e, init_base_node_diagnostics)
              (insert-ne d.diagnostic_type d b.base_diagnostics, refl)
        | inr (v, e) ↦
            rw (e, init_base_node_diagnostics)
              (lookup-ne d.diagnostic_type v b.base_diagnostics e, refl)
      ]

  -- A node that `start` can start.
  pub record IsReady {U E : Type 0} (n : Node U E) : Type 0 where
    pub state : n.base.node_state.state ≡ state_initializing
    pub diagnostics : n.base.base_diagnostics ≢ []

  module _ {U E : Type 0} where
    -- A ready node whose `start` is `base_start` behind changes to the class that inherits starts,
    -- and its main loop does not end by itself.
    pub IsReady-goes_on :
        (m : Methods U E) (f : Derived U E → Derived U E) (n : Node U E) (rounds : ℕ)
        → ((x : Node U E) → m.start x ≡ base_start (record x { derived = f x.derived }))
        → IsReady n
        → ((m.start n).1 ≡ true) × ((main_loop (suc rounds) m (m.start n).0).1 ≡ true)
    IsReady-goes_on m f n rounds s h =
        let started = base_start_iff (record n { derived = f n.derived }) in
        let ok = started.0.1 (h.diagnostics, inl h.state) in
        rw (s n) (ok, (main_loop_goes_on m rounds _ (inl (started.1 ok))).0)
