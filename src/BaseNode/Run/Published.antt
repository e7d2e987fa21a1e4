-- ===== src/BaseNode/Run/Published.antt =====
-- The messages that the base class publishes over a run.
use robot_framework_ros.Prelude.{
  Bool-cases, Text, ℕ, zero, suc, ◌<◌, ◌≡◌, refl, inl, inr, List, [], ◌∷◌, arith,
}
use robot_framework_ros.Core.{DiagnosticMsg}
use robot_framework_ros.Platform.{Platform}
use robot_framework_ros.Messages.{state_running}
use robot_framework_ros.Translate.Infrastructure.{diagnostic_to_ros, ready_to_arm_to_ros}
use robot_framework_ros.BaseNode.State.{
  Base, Derived, Node, Methods, Output, Loop, loop_100hz, loop_10hz, loop_1hz, loop_01hz,
  loop_001hz, loop1, loop2, loop3, heartbeat_sent, diagnostic_sent, ready_to_arm_sent, emit, tick,
}
use robot_framework_ros.BaseNode.Timing.{base_run_01hz}
use robot_framework_ros.BaseNode.Loops.{
  base_run_10hz, base_run_1hz, base_run_100hz, base_run_001hz, send_diagnostics, send_ready_to_arm,
  run_loop, serve, poll, poll_each, update, loop_order,
}
use robot_framework_ros.BaseNode.Loops.Schedule.{Frame, poll_cases, poll-Frame}
use robot_framework_ros.BaseNode.Loops.Once.{request_running}
use robot_framework_ros.BaseNode.Run.{main_loop}
use robot_framework_ros.BaseNode.Run.Invariants.{IsKept}
use robot_framework_ros.BaseNode.Run.Outbox.{All, All-snoc}

module _ ⦃p : Platform⦄ {E : Type 0} where
  -- A message of the base class of a node with the given name, with values that the types of its
  -- members hold: a heartbeat says RUNNING, and what a diagnostic has in a `uint8` fits in one.
  abbrev pub IsProper : Text → Output E → Type 0
  IsProper name (heartbeat_sent msg) =
      (msg.node_name ≡ name) × (msg.node_state.state ≡ state_running)
  IsProper name (diagnostic_sent msg) =
      (msg.node_name ≡ name)
      × (msg.diagnostic_type < 256)
      × (msg.level < 256)
      × (msg.diagnostic_message < 256)
  IsProper name (ready_to_arm_sent msg) = msg.node_name ≡ name
  IsProper name _ = Unit {0}

module _ ⦃p : Platform⦄ {U E : Type 0} (name : Text) where
  abbrev pub AllProper : Derived U E → Type 0
  AllProper d = All (IsProper name) d.outbox

  -- A node of that name in which the loops are served.
  pub record IsServing (n : Node U E) : Type 0 where
    pub name_is : n.base.node_name ≡ name
    pub state_is : n.base.node_state.state ≡ state_running
    pub proper : AllProper n.derived

  emit-AllProper :
      (o : Output E) (d : Derived U E) → AllProper d → IsProper name o → AllProper (emit o d)
  emit-AllProper o d h g = All-snoc (IsProper name) d.outbox o h g

  send_diagnostics-AllProper :
      (b : Base) (xs : List DiagnosticMsg) (d : Derived U E)
      → b.node_name ≡ name
      → AllProper d
      → AllProper (send_diagnostics b xs d)
  unfolding send_diagnostics diagnostic_to_ros
  send_diagnostics-AllProper b [] d e h = h
  send_diagnostics-AllProper b (x ∷ xs) d e h =
      send_diagnostics-AllProper b xs _ e
        (emit-AllProper _ (tick d) h (e, omega arith, omega arith, omega arith))

  send_ready_to_arm-AllProper :
      (b : Base) (d : Derived U E)
      → b.node_name ≡ name
      → AllProper d
      → AllProper (send_ready_to_arm b d)
  unfolding send_ready_to_arm ready_to_arm_to_ros
  send_ready_to_arm-AllProper b d e h = elim (Bool-cases b.ready_to_arm_publish_enabled) [
    | inl f ↦ rw f (emit-AllProper _ (tick d) h e)
    | inr f ↦ rw f h
  ]

  module _ (m : Methods U E) (k : IsKept AllProper m) where
    run_loop-AllProper :
        (l : Loop) (n : Node U E) → IsServing n → AllProper (run_loop l m n).0.derived
    unfolding run_loop base_run_10hz base_run_1hz base_run_100hz base_run_001hz base_run_01hz
    run_loop-AllProper loop_100hz n h = k.run_100hz _ _ h.proper
    run_loop-AllProper loop_10hz n h =
        k.run_10hz _ _ (emit-AllProper _ (tick n.derived) h.proper (h.name_is, h.state_is))
    run_loop-AllProper loop_1hz n h = k.run_1hz _ _ (
        send_ready_to_arm-AllProper n.base _ h.name_is
          (send_diagnostics-AllProper n.base n.derived.diagnostics _ h.name_is h.proper))
    run_loop-AllProper loop_01hz n h = k.run_01hz _ _ h.proper
    run_loop-AllProper loop_001hz n h = k.run_001hz _ _ h.proper
    run_loop-AllProper loop1 n h = k.run_loop1 _ _ h.proper
    run_loop-AllProper loop2 n h = k.run_loop2 _ _ h.proper
    run_loop-AllProper loop3 n h = k.run_loop3 _ _ h.proper

    framed :
        (n n' : Node U E) → IsServing n → Frame n.base n'.base → AllProper n'.derived → IsServing n'
    framed n n' h f g = ground (arith, h.name_is, h.state_is)

    poll-IsServing : (l : Loop) (n : Node U E) → IsServing n → IsServing (poll l m n)
    unfolding serve
    poll-IsServing l n h =
        let read : IsServing (record n { derived = tick n.derived }) = record {
          name_is = h.name_is;
          state_is = h.state_is;
          proper = h.proper;
        } in
        framed n (poll l m n) h (poll-Frame m l n) (
          poll_cases m (λ x. AllProper x.derived) l n h.proper h.proper
            (λ _. run_loop-AllProper l _ read))

    poll_each-IsServing :
        (ls : List Loop) (n : Node U E) → IsServing n → IsServing (poll_each ls m n)
    unfolding poll_each
    poll_each-IsServing [] n h = h
    poll_each-IsServing (l ∷ ls) n h = poll_each-IsServing ls (poll l m n) (poll-IsServing l n h)

    abbrev pub IsNamed : Node U E → Type 0
    IsNamed n = (n.base.node_name ≡ name) × AllProper n.derived

    pub update-IsNamed : (n : Node U E) → IsNamed n → IsNamed (update m n).0
    unfolding update
    update-IsNamed n (e, h) = elim (request_running m n.base) [
      | inl (s, ok, f) ↦
          let b = record (n.base) { node_state = record { state = state_running } } in
          let start : IsServing (record { base = b; derived = m.spin_once b n.derived }) = record {
            name_is = e;
            state_is = refl;
            proper = k.spin_once _ _ h;
          } in
          let done = poll_each-IsServing loop_order _ start in
          rw (ok, f) (done.name_is, done.proper)
      | inr (_, _, refused, f) ↦ rw (refused, f) (e, h)
    ]

    pub main_loop-IsNamed :
        (rounds : ℕ) (n : Node U E) → IsNamed n → IsNamed (main_loop rounds m n).0
    unfolding main_loop
    main_loop-IsNamed zero n h = h
    main_loop-IsNamed (suc rounds) n h =
        let (e, g) = update-IsNamed n h in
        let spun = k.spin_once (update m n).0.base _ g in
        elim (Bool-cases (update m n).1) [
          | inl f ↦ rw (f, main_loop) (main_loop-IsNamed rounds _ (e, spun))
          | inr f ↦ rw (f, main_loop) (e, spun)
        ]

    -- However long the main loop runs, from a node that has published nothing out of place, and
    -- where the virtual methods and the callbacks publish none of the base class's messages out of
    -- place: each heartbeat that it has published has the node's name and says RUNNING, each
    -- diagnostic has the node's name and a type, a level and a message that fit in a byte, and each
    -- ready-to-arm status has the node's name.
    pub main_loop-AllProper :
        (rounds : ℕ) (n : Node U E)
        → n.base.node_name ≡ name
        → AllProper n.derived
        → AllProper (main_loop rounds m n).0.derived
    main_loop-AllProper rounds n e h = (main_loop-IsNamed rounds n (e, h)).1
