-- ===== src/BaseNode/Run/Liveness.antt =====
-- A node that started goes on running for as long as ROS does.
use robot_framework_ros.Prelude.{ℕ, zero, suc, ◌≡◌, refl, ◌≢◌, ◌↔◌, ◌⊎◌, inl, inr, true, [], arith}
use robot_framework_ros.Platform.{Platform}
use robot_framework_ros.Messages.{state_initializing, state_starting, state_running}
use robot_framework_ros.BaseNode.State.{Derived, Node, Methods, loop1}
use robot_framework_ros.BaseNode.Lifecycle.{
  base_start, base_restart, request_node_statechange, state_change_allowed,
}
use robot_framework_ros.BaseNode.Loops.{update}
use robot_framework_ros.BaseNode.Loops.Once.{update-Moved, update_iff}
use robot_framework_ros.BaseNode.Run.{main_loop}

module _ ⦃p : Platform⦄ {U E : Type 0} where
  -- `base_start` returns true exactly when a base diagnostic was set up and the node is
  -- INITIALIZING, STARTING or RUNNING, and then the node is STARTING.
  pub base_start_iff :
      (n : Node U E)
      → let s = n.base.node_state.state in
        let (n', ok) = base_start n in
        ((ok ≡ true) ↔ (
          (n.base.base_diagnostics ≢ [])
          × ((s ≡ state_initializing) ⊎ (s ≡ state_starting) ⊎ (s ≡ state_running))))
        × (ok ≡ true → n'.base.node_state.state ≡ state_starting)
  unfolding base_start request_node_statechange state_change_allowed
  base_start_iff n = ground arith

  main_loop-running :
      (m : Methods U E) (rounds : ℕ) (n : Node U E)
      → n.base.node_state.state ≡ state_running
      → ((main_loop rounds m n).1 ≡ true)
        × ((main_loop rounds m n).0.base.node_state.state ≡ state_running)
  unfolding main_loop
  main_loop-running m zero n h = (refl, h)
  main_loop-running m (suc rounds) n h =
      let ok = (update_iff m n).0.1 (inr h) in
      let n' = (update m n).0 in
      let spun : Node U E = record n' { derived = m.spin_once n'.base n'.derived } in
      rw (ok, main_loop) (main_loop-running m rounds spun (update-Moved m n loop1 ok).0)

  -- In a node that is STARTING or RUNNING the main loop never ends by itself, whatever the virtual
  -- methods and the callbacks do and whatever the clock shows: after any positive number of rounds
  -- no `update` has returned false, and the node is RUNNING.
  pub main_loop_goes_on :
      (m : Methods U E) (rounds : ℕ) (n : Node U E)
      → (n.base.node_state.state ≡ state_starting) ⊎ (n.base.node_state.state ≡ state_running)
      → ((main_loop (suc rounds) m n).1 ≡ true)
        × ((main_loop (suc rounds) m n).0.base.node_state.state ≡ state_running)
  unfolding main_loop
  main_loop_goes_on m rounds n h =
      let ok = (update_iff m n).0.1 h in
      let n' = (update m n).0 in
      let spun : Node U E = record n' { derived = m.spin_once n'.base n'.derived } in
      rw (ok, main_loop) (main_loop-running m rounds spun (update-Moved m n loop1 ok).0)

  -- When `start` is `base_start` behind changes to the class that inherits only, a restart of a
  -- node that runs succeeds, and an update takes it back to RUNNING.
  pub base_restart-running :
      (m : Methods U E) (f : Derived U E → Derived U E) (n : Node U E)
      → ((x : Node U E) → m.start x ≡ base_start (record x { derived = f x.derived }))
      → n.base.base_diagnostics ≢ []
      → n.base.node_state.state ≡ state_running
      → let (n', ok) = base_restart m n in
        (ok ≡ true)
        × (n'.base.node_state.state ≡ state_starting)
        × ((update m n').0.base.node_state.state ≡ state_running)
  unfolding base_restart
  base_restart-running m f n s d h =
      let started = base_start_iff (record n { derived = f n.derived }) in
      let ok = started.0.1 (d, inr (inr h)) in
      let state = started.1 ok in
      rw (s n, ok) (refl, state, (update-Moved m _ loop1 ((update_iff m _).0.1 (inl state))).0)
