-- ===== src/BaseNode/Lifecycle/Machine.antt =====
-- The state machine that `request_node_statechange` implements.
use robot_framework_ros.Prelude.{
  ◌==◌, ==_iff, Bool-cases, ℕ, ◌≤◌, ◌≡◌, ◌≢◌, ◌↔◌, ◌⊎◌, inl, inr, Bool, true, false, List, [], ◌∷◌,
  arith,
}
use robot_framework_ros.Platform.{Platform}
use robot_framework_ros.Messages.{
  state_unknown, state_initializing, state_starting, state_running, state_paused, state_restart,
  state_finished,
}
use robot_framework_ros.BaseNode.State.{Base, new_base}
use robot_framework_ros.BaseNode.Lifecycle.{request_node_statechange, state_change_allowed}

-- The transitions that the code knows.
pub data Transition : ℕ → ℕ → Type 0 where
  initialize : {a b : ℕ} → a ≡ state_unknown → b ≡ state_initializing → Transition a b
  start : {a b : ℕ} → a ≡ state_initializing → b ≡ state_starting → Transition a b
  run : {a b : ℕ} → a ≡ state_starting → b ≡ state_running → Transition a b
  restart : {a b : ℕ} → a ≡ state_running → b ≡ state_starting → Transition a b

abbrev Cases : ℕ → ℕ → Type 0
Cases a b =
    ((a ≡ state_unknown) × (b ≡ state_initializing))
    ⊎ ((a ≡ state_initializing) × (b ≡ state_starting))
    ⊎ ((a ≡ state_starting) × (b ≡ state_running))
    ⊎ ((a ≡ state_running) × (b ≡ state_starting))

Transition-Cases : {a b : ℕ} → Cases a b → Transition a b
Transition-Cases (inl (e, f)) = initialize e f
Transition-Cases (inr (inl (e, f))) = start e f
Transition-Cases (inr (inr (inl (e, f)))) = run e f
Transition-Cases (inr (inr (inr (e, f)))) = restart e f

allowed-Transition : {a b : ℕ} → Transition a b → state_change_allowed a b false ≡ true
unfolding state_change_allowed
allowed-Transition (initialize e f) = ground arith
allowed-Transition (start e f) = ground arith
allowed-Transition (run e f) = ground arith
allowed-Transition (restart e f) = ground arith

Cases-allowed : (a b : ℕ) → state_change_allowed a b false ≡ true → Cases a b
unfolding state_change_allowed
Cases-allowed a b h = ground arith

Transition-allowed : {a b : ℕ} → state_change_allowed a b false ≡ true → Transition a b
Transition-allowed {a} {b} h = Transition-Cases (Cases-allowed a b h)

module _ ⦃p : Platform⦄ where
  -- A request without override succeeds exactly when the node is in the state already or a
  -- transition leads there; in both cases the node is then in that state, and otherwise nothing
  -- changes.
  pub request_node_statechange-Transition :
      (b : Base) (new : ℕ)
      → let current = b.node_state.state in
        let (b', ok) = request_node_statechange b new false in
        ((ok ≡ true) ↔ ((current ≡ new) ⊎ Transition current new))
        × (ok ≡ true → b' ≡ record b { node_state = record { state = new } })
        × (ok ≡ false → b' ≡ b)
  unfolding request_node_statechange
  request_node_statechange-Transition b new = (
    (
      (λ h. elim (Bool-cases (b.node_state.state == new)) [
        | inl e ↦ inl ((==_iff _ new).0 e)
        | inr e ↦ inr (Transition-allowed (ground arith))
      ]),
      elim [ inl e ↦ ground arith | inr t ↦ ground (arith, allowed-Transition t) ],
    ),
    ground arith,
    ground arith,
  )

  -- A request with override never changes the node: it succeeds only when the node is in the state
  -- already.
  pub request_node_statechange-override :
      (b : Base) (new : ℕ) → request_node_statechange b new true ≡ (b, b.node_state.state == new)
  unfolding request_node_statechange state_change_allowed
  request_node_statechange-override b new = ground arith

  -- The requests that a node made since it was constructed, the oldest first.
  pub requests : Base → List (ℕ × Bool) → Base
  requests b [] = b
  requests b ((new, override) ∷ rest) = requests (request_node_statechange b new override).0 rest

  request-le :
      (b : Base) (new : ℕ) (override : Bool)
      → b.node_state.state ≤ state_running
      → (request_node_statechange b new override).0.node_state.state ≤ state_running
  unfolding request_node_statechange state_change_allowed
  request-le b new true h = ground arith
  request-le b new false h = ground arith

  requests-le :
      (b : Base) (rs : List (ℕ × Bool))
      → b.node_state.state ≤ state_running
      → (requests b rs).node_state.state ≤ state_running
  unfolding requests
  requests-le b [] h = h
  requests-le b ((new, override) ∷ rest) h =
      requests-le (request_node_statechange b new override).0 rest (request-le b new override h)

  -- Whatever is requested of a new node, it never is in the states PAUSED, RESTART and FINISHED of
  -- msg/nodestate.msg.
  pub requests-ne-paused :
      (rs : List (ℕ × Bool))
      → let s = (requests new_base rs).node_state.state in
        (s ≢ state_paused) × (s ≢ state_restart) × (s ≢ state_finished)
  unfolding new_base
  requests-ne-paused rs = omega (arith, requests-le new_base rs (omega arith))
