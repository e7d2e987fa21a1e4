-- ===== src/BaseNode/Loops/Once.antt =====
-- An `update` runs each loop at most once.
use robot_framework_ros.Prelude.{
  ℕ, ◌≡◌, refl, ap, ◌∙◌, ◌≢◌, ◌↔◌, ◌⊎◌, inl, inr, true, false, List, [], ◌∷◌, ◌++◌, arith,
}
use robot_framework_ros.Platform.{Platform}
use robot_framework_ros.Messages.{Nodestate, state_starting, state_running}
use robot_framework_ros.BaseNode.State.{
  Base, Node, Methods, Loop, loop_100hz, loop1, loop2, loop3, timer_of, next_cycle, tick,
}
use robot_framework_ros.BaseNode.Lifecycle.{request_node_statechange, state_change_allowed}
use robot_framework_ros.BaseNode.Loops.{
  run_loop, serve, poll, poll_each, update, loop_order, is_enabled,
}
use robot_framework_ros.BaseNode.Loops.Order.{
  Absent, loop_order-split, timer_of-set_timer_self, poll-timer_ne, poll_each-timer-Absent,
}
use robot_framework_ros.BaseNode.Loops.Schedule.{
  Frame, run_loop-Kept, poll_cases, poll-Frame, poll_each-Frame,
}

module _ ⦃p : Platform⦄ where
  abbrev pub cycles_of : Loop → Base → ℕ
  cycles_of l b = (timer_of l b.timers).cycles

  -- The loop did not run, or ran once and is enabled.
  abbrev pub Moved : Loop → Base → Base → Type 0
  Moved l b b' =
      (cycles_of l b' ≡ cycles_of l b)
      ⊎ ((cycles_of l b' ≡ next_cycle (cycles_of l b)) × (is_enabled l b ≡ true))

  module _ {U E : Type 0} (m : Methods U E) where
    pub serve-cycles_self :
        (l : Loop) (n : Node U E) → cycles_of l (serve l m n).base ≡ next_cycle (cycles_of l n.base)
    unfolding serve
    serve-cycles_self l n =
        ap (λ t. t.cycles) (timer_of-set_timer_self l _ (run_loop l m n).0.base.timers)
        ∙ ap (λ t. next_cycle (timer_of l t).cycles) (run_loop-Kept m l n).1

    poll-Moved : (l : Loop) (n : Node U E) → Moved l n.base (poll l m n).base
    poll-Moved l n =
        poll_cases m (λ x. Moved l n.base x.base) l n (inl refl) (inl refl)
          (λ on. inr (serve-cycles_self l (record n { derived = tick n.derived }), on))

    pub is_enabled-Frame : (l : Loop) (b b' : Base) → Frame b b' → is_enabled l b' ≡ is_enabled l b
    is_enabled-Frame loop1 b b' f = ground arith
    is_enabled-Frame loop2 b b' f = ground arith
    is_enabled-Frame loop3 b b' f = ground arith
    is_enabled-Frame _ b b' f = refl

    poll_each-Moved :
        (l : Loop) (before after : List Loop) (n : Node U E)
        → Absent l before
        → Absent l after
        → Moved l n.base (poll_each (before ++ (l ∷ after)) m n).base
    unfolding poll_each
    poll_each-Moved l [] after n h k =
        let same : cycles_of l (poll_each after m (poll l m n)).base
            ≡ cycles_of l (poll l m n).base =
          ap (λ t. t.cycles) (poll_each-timer-Absent m l after (poll l m n) k) in
        rw same (poll-Moved l n)
    poll_each-Moved l (b ∷ before) after n h k =
        let same : cycles_of l (poll b m n).base ≡ cycles_of l n.base =
          ap (λ t. t.cycles) (poll-timer_ne m l b n h.0) in
        rw (← same, ← is_enabled-Frame l _ _ (poll-Frame m b n))
          (poll_each-Moved l before after (poll b m n) h.1 k)

    all-Moved : (l : Loop) (n : Node U E) → Moved l n.base (poll_each loop_order m n).base
    all-Moved l n =
        let (before, after, e, h, k) = loop_order-split l in
        rw e (poll_each-Moved l before after n h k)

    pub request_running :
        (b : Base)
        → let (b', ok) = request_node_statechange b state_running false in
          (((b.node_state.state ≡ state_starting) ⊎ (b.node_state.state ≡ state_running))
            × (ok ≡ true)
            × (b' ≡ record b { node_state = record { state = state_running } }))
          ⊎ ((b.node_state.state ≢ state_starting)
              × (b.node_state.state ≢ state_running)
              × (ok ≡ false)
              × (b' ≡ b))
    unfolding request_node_statechange state_change_allowed
    request_running b = ground arith

    Moved-state :
        (l : Loop) (b b' : Base) (s : Nodestate)
        → Moved l (record b { node_state = s }) b'
        → Moved l b b'
    Moved-state loop1 b b' s h = h
    Moved-state loop2 b b' s h = h
    Moved-state loop3 b b' s h = h
    Moved-state loop_100hz b b' s h = h
    Moved-state _ b b' s h = h

    -- An `update` that returns true leaves the node RUNNING, and each of the eight loops has run at
    -- most once in it: its counter stands still, or the loop is enabled and its counter is the next
    -- one.
    pub update-Moved :
        (n : Node U E) (l : Loop)
        → (update m n).1 ≡ true
        → ((update m n).0.base.node_state.state ≡ state_running)
          × Moved l n.base (update m n).0.base
    unfolding update
    update-Moved n l h = elim (request_running n.base) [
      | inl (s, ok, e) ↦
          let b = record (n.base) { node_state = record { state = state_running } } in
          let n' : Node U E = record { base = b; derived = m.spin_once b n.derived } in
          rw (ok, e)
            (
              ap (λ x. x.state) (poll_each-Frame m loop_order n').state,
              Moved-state l n.base (poll_each loop_order m n').base b.node_state (all-Moved l n'),
            )
      | inr (_, _, refused, e) ↦ ground arith
    ]

    -- An `update` returns true exactly when the node was STARTING or RUNNING, and one that returns
    -- false changes nothing.
    pub update_iff :
        (n : Node U E)
        → let s = n.base.node_state.state in
          (((update m n).1 ≡ true) ↔ ((s ≡ state_starting) ⊎ (s ≡ state_running)))
          × ((update m n).1 ≡ false → (update m n).0 ≡ n)
    unfolding update request_node_statechange state_change_allowed
    update_iff n = ground arith
