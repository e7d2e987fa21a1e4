-- ===== src/BaseNode/Loops/Reached.antt =====
-- A loop whose time has come is not passed over, and what it reaches in an update.
use robot_framework_ros.Prelude.{ℕ, ◌≤◌, ◌<◌, ◌≡◌, ◌∙◌, Bool, true, List, [], ◌∷◌, ◌++◌, arith}
use robot_framework_ros.Platform.{Platform}
use robot_framework_ros.BaseNode.State.{
  Base, Derived, Node, Methods, Loop, loop_100hz, loop_10hz, loop_1hz, loop_01hz, loop_001hz, loop1,
  loop2, loop3, next_cycle, tick,
}
use robot_framework_ros.BaseNode.Timing.{base_run_01hz}
use robot_framework_ros.BaseNode.Loops.{
  base_run_100hz, base_run_10hz, base_run_1hz, base_run_001hz, run_loop, serve, poll, poll_each,
  update, loop_order, is_enabled, is_due,
}
use robot_framework_ros.BaseNode.Loops.Schedule.{Frame, Frame-refl, Frame-trans, poll-Frame}
use robot_framework_ros.BaseNode.Loops.Order.{Absent, loop_order-split, poll-timer_ne}
use robot_framework_ros.BaseNode.Loops.Once.{cycles_of, is_enabled-Frame}
use robot_framework_ros.BaseNode.Loops.Serving.{
  IsDueBetween, IsDueBetween-Frame, IsDueBetween-state, is_enabled-state, later-IsUndisturbed,
  KeepsTime, running, polled_first, poll-reads, poll_each-reads, update-polls, update-counted,
}
use robot_framework_ros.BaseNode.Run.Invariants.{
  IsUndisturbed, IsKept, send_diagnostics-kept, send_ready_to_arm-kept, poll-kept, poll_each-kept,
}

module _ ⦃p : Platform⦄ where
  -- The virtual method that a loop stands for.
  abbrev pub method_of :
      {U E : Type 0} → Loop → Methods U E → Base → Derived U E → Derived U E × Bool
  method_of loop_100hz m = m.run_100hz
  method_of loop_10hz m = m.run_10hz
  method_of loop_1hz m = m.run_1hz
  method_of loop_01hz m = m.run_01hz
  method_of loop_001hz m = m.run_001hz
  method_of loop1 m = m.run_loop1
  method_of loop2 m = m.run_loop2
  method_of loop3 m = m.run_loop3

module _ ⦃p : Platform⦄ {U E : Type 0} (m : Methods U E) (later : KeepsTime m) where
  module _ (r end : ℕ) (J : Derived U E → Type 0) (u : IsUndisturbed J) (kept : IsKept J m)
      (l : Loop) (b0 : Base)
      (run : (x : Node U E)
        → Frame b0 x.base
        → r ≤ x.derived.reads
        → (run_loop l m x).0.derived.reads < end
        → J (run_loop l m x).0.derived) where
    poll-reached :
        (n : Node U E)
        → Frame b0 n.base
        → is_enabled l n.base ≡ true
        → is_due l n ≡ true
        → r ≤ n.derived.reads
        → (poll l m n).derived.reads ≤ end
        → J (poll l m n).derived
    unfolding poll serve
    poll-reached n f on due from upto =
        let read : Node U E = record n { derived = tick n.derived } in
        let before : (serve l m read).derived.reads ≤ end = rw (on, due) at upto in
        rw (on, due) (u.read _ 1 (run read f (omega (arith, from)) (omega (arith, before))))

    poll_each-reached :
        (before after : List Loop) (n : Node U E)
        → Frame b0 n.base
        → Absent l before
        → is_enabled l n.base ≡ true
        → IsDueBetween r end l n.base
        → r ≤ n.derived.reads
        → (poll_each (before ++ (l ∷ after)) m n).derived.reads ≤ end
        → J (poll_each (before ++ (l ∷ after)) m n).derived
    unfolding poll_each
    poll_each-reached [] after n f g on due from upto =
        let k = poll-reads m later l n on in
        let j = poll_each-reads m later after (poll l m n) in
        poll_each-kept J u m kept after (poll l m n) (
          poll-reached n f on (due n.derived.reads from (omega (arith, k, j, upto))) from
            (omega (arith, j, upto)))
    poll_each-reached (b ∷ before) after n f g on due from upto =
        let frame = poll-Frame m b n in
        poll_each-reached before after (poll b m n) (Frame-trans b0 n.base _ f frame) g.1
          (is_enabled-Frame m l _ _ frame ∙ on)
          (IsDueBetween-Frame r end l _ _ frame (poll-timer_ne m l b n g.0) due)
          (poll-kept (λ d. r ≤ d.reads) (later-IsUndisturbed r) m (later r) b n from) upto

    -- What one run of the loop reaches, and what the methods and the base class keep, holds when all
    -- loops are through.
    all-reached :
        (n : Node U E)
        → Frame b0 n.base
        → is_enabled l n.base ≡ true
        → IsDueBetween r end l n.base
        → r ≤ n.derived.reads
        → (poll_each loop_order m n).derived.reads ≤ end
        → J (poll_each loop_order m n).derived
    all-reached n f on due from =
        let (before, after, e, g, h) = loop_order-split l in
        rw e (poll_each-reached before after n f g on due from)

  -- An `update` that returns true leaves what a run of a loop reaches, if the loop is enabled and
  -- its time has come by every reading of the clock during the update.
  pub update-reached :
      (J : Derived U E → Type 0) (n : Node U E) (l : Loop)
      → IsUndisturbed J
      → IsKept J m
      → ((x : Node U E)
          → Frame (running n.base) x.base
          → n.derived.reads ≤ x.derived.reads
          → (run_loop l m x).0.derived.reads < (update m n).0.derived.reads
          → J (run_loop l m x).0.derived)
      → (update m n).1 ≡ true
      → is_enabled l n.base ≡ true
      → IsDueBetween n.derived.reads (update m n).0.derived.reads l n.base
      → J (update m n).0.derived
  update-reached J n l u kept run h on due =
      let e = update-polls m n h in
      rw e (
        all-reached n.derived.reads (update m n).0.derived.reads J u kept l (running n.base) run
          (polled_first m n) (Frame-refl (running n.base)) (is_enabled-state l n.base _ ∙ on)
          (IsDueBetween-state _ _ l n.base _ due)
          ((later n.derived.reads).spin_once (running n.base) n.derived (omega arith))
          (rw e (omega arith)))

  -- In a run of a loop its virtual method is called, for the node as it is.
  run_loop-reached :
      (J : Derived U E → Type 0) (l : Loop) (x : Node U E)
      → IsUndisturbed J
      → ((d : Derived U E) → x.derived.reads ≤ d.reads → J (method_of l m x.base d).0)
      → J (run_loop l m x).0.derived
  unfolding run_loop base_run_100hz base_run_10hz base_run_1hz base_run_01hz base_run_001hz
  run_loop-reached J loop_100hz x u call = call _ (omega arith)
  run_loop-reached J loop_10hz x u call = call _ (omega arith)
  run_loop-reached J loop_1hz x u call = call _ (
      send_ready_to_arm-kept (λ d. x.derived.reads ≤ d.reads) (later-IsUndisturbed x.derived.reads)
        x.base _
        (send_diagnostics-kept (λ d. x.derived.reads ≤ d.reads)
          (later-IsUndisturbed x.derived.reads) x.base x.derived.diagnostics x.derived
          (omega arith)))
  run_loop-reached J loop_01hz x u call = u.read _ 1 (call _ (omega arith))
  run_loop-reached J loop_001hz x u call = call _ (omega arith)
  run_loop-reached J loop1 x u call = call _ (omega arith)
  run_loop-reached J loop2 x u call = call _ (omega arith)
  run_loop-reached J loop3 x u call = call _ (omega arith)

  -- No loop starves: an `update` that returns true runs each enabled loop of which, by every
  -- reading of the clock during the update, the period has passed since its last run. That is, the
  -- counter of the loop is the next one, and the virtual method of the loop was called: whatever that
  -- method reaches when it is called for the node in the state RUNNING, not before the update, holds
  -- after the update, if the virtual methods, the callbacks and what the base class itself does keep
  -- it once it holds. This needs that the virtual methods and the callbacks do not turn the clock
  -- back.
  pub update-served :
      (J : Derived U E → Type 0) (n : Node U E) (l : Loop)
      → IsUndisturbed J
      → IsKept J m
      → ((b : Base) (d : Derived U E)
          → Frame (running n.base) b
          → n.derived.reads ≤ d.reads
          → J (method_of l m b d).0)
      → (update m n).1 ≡ true
      → is_enabled l n.base ≡ true
      → IsDueBetween n.derived.reads (update m n).0.derived.reads l n.base
      → J (update m n).0.derived
        × (cycles_of l (update m n).0.base ≡ next_cycle (cycles_of l n.base))
  update-served J n l u kept call ok on due = (
    update-reached J n l u kept
        (λ x f from _. run_loop-reached J l x u (λ d h. call x.base d f (omega (arith, from, h))))
        ok on due,
    update-counted m n l later ok on due,
  )
