-- ===== src/BaseNode/Run/Invariants.antt =====
-- What the methods of a class keep, its updates and its main loop keep.
use robot_framework_ros.Prelude.{
  ◌==◌, Bool-cases, Option-cases, length, ℕ, zero, suc, ◌+◌, inl, inr, Bool, true, false, Option,
  none, some, List, [], ◌∷◌,
}
use mathlib.Core.Path.{subst}
use robot_framework_ros.Core.{DiagnosticMsg}
use robot_framework_ros.Platform.{Platform}
use robot_framework_ros.Messages.{state_running, Heartbeat, Diagnostic, ReadyToArm}
use robot_framework_ros.BaseNode.State.{
  Base, new_base, Derived, Node, Methods, Loop, loop_100hz, loop_10hz, loop_1hz, loop_01hz,
  loop_001hz, loop1, loop2, loop3, emit, heartbeat_sent, diagnostic_sent, ready_to_arm_sent,
}
use robot_framework_ros.BaseNode.Lifecycle.{request_node_statechange, base_start}
use robot_framework_ros.BaseNode.Timing.{base_run_01hz}
use robot_framework_ros.BaseNode.Loops.{
  base_run_10hz, base_run_1hz, base_run_100hz, base_run_001hz, send_diagnostics, send_ready_to_arm,
  run_loop, serve, poll, poll_each, update, loop_order,
}
use robot_framework_ros.BaseNode.Loops.Schedule.{poll_cases}
use robot_framework_ros.BaseNode.Run.{
  Program, Exit, terminated, init_failed, start_failed, finished, main_loop, run_main,
}

module _ ⦃p : Platform⦄ {U E : Type 0} where
  -- What the base class does to the part of the class that inherits keeps I.
  pub record IsUndisturbed (I : Derived U E → Type 0) : Type 0 where
    pub read : (d : Derived U E) (k : ℕ) → I d → I (record d { reads = d.reads + k })
    pub heartbeat : (d : Derived U E) (msg : Heartbeat) → I d → I (emit (heartbeat_sent msg) d)
    pub diagnostic : (d : Derived U E) (msg : Diagnostic) → I d → I (emit (diagnostic_sent msg) d)
    pub ready_to_arm :
        (d : Derived U E) (msg : ReadyToArm) → I d → I (emit (ready_to_arm_sent msg) d)

  -- The virtual methods and the callbacks keep I.
  pub record IsKept (I : Derived U E → Type 0) (m : Methods U E) : Type 0 where
    pub run_100hz : (b : Base) (d : Derived U E) → I d → I (m.run_100hz b d).0
    pub run_10hz : (b : Base) (d : Derived U E) → I d → I (m.run_10hz b d).0
    pub run_1hz : (b : Base) (d : Derived U E) → I d → I (m.run_1hz b d).0
    pub run_01hz : (b : Base) (d : Derived U E) → I d → I (m.run_01hz b d).0
    pub run_001hz : (b : Base) (d : Derived U E) → I d → I (m.run_001hz b d).0
    pub run_loop1 : (b : Base) (d : Derived U E) → I d → I (m.run_loop1 b d).0
    pub run_loop2 : (b : Base) (d : Derived U E) → I d → I (m.run_loop2 b d).0
    pub run_loop3 : (b : Base) (d : Derived U E) → I d → I (m.run_loop3 b d).0
    pub spin_once : (b : Base) (d : Derived U E) → I d → I (m.spin_once b d)

module _ ⦃p : Platform⦄ {U E : Type 0} (I : Derived U E → Type 0) where
  -- The node that `init` leaves, and the one that `main` ends with.
  abbrev pub OfInit : Option (Node U E × Bool) → Type 0
  OfInit none = Unit
  OfInit (some (n, ok)) = I n.derived

  abbrev pub OfExit : Exit U E → Type 0
  OfExit terminated = Unit
  OfExit (init_failed n) = I n.derived
  OfExit (start_failed n) = I n.derived
  OfExit (finished n) = I n.derived

module _ ⦃p : Platform⦄ {U E : Type 0} (I : Derived U E → Type 0) (u : IsUndisturbed I) where
  pub send_diagnostics-kept :
      (b : Base) (xs : List DiagnosticMsg) (d : Derived U E) → I d → I (send_diagnostics b xs d)
  unfolding send_diagnostics
  send_diagnostics-kept b [] d h = h
  send_diagnostics-kept b (x ∷ xs) d h =
      send_diagnostics-kept b xs _ (u.diagnostic _ _ (u.read d 1 h))

  pub send_ready_to_arm-kept : (b : Base) (d : Derived U E) → I d → I (send_ready_to_arm b d)
  unfolding send_ready_to_arm
  send_ready_to_arm-kept b d h = elim (Bool-cases b.ready_to_arm_publish_enabled) [
    | inl e ↦ rw e (u.ready_to_arm _ _ (u.read d 1 h))
    | inr e ↦ rw e h
  ]

  module _ (m : Methods U E) (k : IsKept I m) where
    pub run_loop-kept : (l : Loop) (n : Node U E) → I n.derived → I (run_loop l m n).0.derived
    unfolding run_loop base_run_10hz base_run_1hz base_run_100hz base_run_001hz base_run_01hz
    run_loop-kept loop_100hz n h = k.run_100hz _ _ h
    run_loop-kept loop_10hz n h = k.run_10hz _ _ (u.heartbeat _ _ (u.read n.derived 1 h))
    run_loop-kept loop_1hz n h =
        k.run_1hz _ _
          (send_ready_to_arm-kept n.base _ (send_diagnostics-kept n.base n.derived.diagnostics _ h))
    run_loop-kept loop_01hz n h = u.read _ 1 (k.run_01hz _ _ h)
    run_loop-kept loop_001hz n h = k.run_001hz _ _ h
    run_loop-kept loop1 n h = k.run_loop1 _ _ h
    run_loop-kept loop2 n h = k.run_loop2 _ _ h
    run_loop-kept loop3 n h = k.run_loop3 _ _ h

    pub poll-kept : (l : Loop) (n : Node U E) → I n.derived → I (poll l m n).derived
    unfolding serve
    poll-kept l n h =
        let read = u.read n.derived 1 h in
        poll_cases m (λ x. I x.derived) l n h read (λ _. u.read _ 1 (run_loop-kept l _ read))

    pub poll_each-kept :
        (ls : List Loop) (n : Node U E) → I n.derived → I (poll_each ls m n).derived
    unfolding poll_each
    poll_each-kept [] n h = h
    poll_each-kept (l ∷ ls) n h = poll_each-kept ls (poll l m n) (poll-kept l n h)

    pub update-kept : (n : Node U E) → I n.derived → I (update m n).0.derived
    unfolding update
    update-kept n h = elim (Bool-cases (request_node_statechange n.base state_running false).1) [
      | inl e ↦ rw e (poll_each-kept loop_order _ (k.spin_once _ _ h))
      | inr e ↦ rw e h
    ]

    -- A property of the class's part that its methods and the base class's own doing keep holds
    -- after any number of rounds.
    pub main_loop-kept :
        (rounds : ℕ) (n : Node U E) → I n.derived → I (main_loop rounds m n).0.derived
    unfolding main_loop
    main_loop-kept zero n h = h
    main_loop-kept (suc rounds) n h =
        let spun = k.spin_once (update m n).0.base _ (update-kept n h) in
        elim (Bool-cases (update m n).1) [
          | inl e ↦ rw (e, main_loop) (main_loop-kept rounds _ spun)
          | inr e ↦ rw (e, main_loop) spun
        ]

  pub base_start-kept : (n : Node U E) → I n.derived → I (base_start n).0.derived
  unfolding base_start
  base_start-kept n h = elim (Bool-cases (length n.base.base_diagnostics == 0)) [
    | inl e ↦ rw e (u.read _ 1 h)
    | inr e ↦ rw e (u.read _ 9 h)
  ]

  -- The same for the whole of `main`, when `init`, `start` and `stop` keep the property too.
  pub run_main-kept :
      (q : Program U E) (rounds : ℕ)
      → OfInit I (q.init (record { base = new_base; derived = q.constructed }))
      → ((n : Node U E) → I n.derived → I (q.methods.start n).0.derived)
      → IsKept I q.methods
      → ((d : Derived U E) → I d → I (q.stop d))
      → OfExit I (run_main q rounds)
  unfolding run_main
  run_main-kept q rounds i s k stop =
      elim (Option-cases (q.init (record { base = new_base; derived = q.constructed }))) [
        | inl e ↦ rw (e, run_main, OfExit) tt
        | inr ((n, true), e) ↦
            let h : I n.derived = subst (OfInit I) e i in
            elim (Bool-cases (q.methods.start n).1) [
              | inl f ↦
                  rw (e, f, run_main, OfExit) (stop _ (main_loop-kept q.methods k rounds _ (s n h)))
              | inr f ↦ rw (e, f, run_main, OfExit) (s n h)
            ]
        | inr ((n, false), e) ↦ rw (e, run_main, OfExit) (subst (OfInit I) e i)
      ]
