-- ===== src/BaseNode/Loops/Serving.antt =====
-- A loop whose time has come is counted in an update.
use robot_framework_ros.Prelude.{
  Bool-cases, ℕ, ◌+◌, ◌≤◌, ◌<◌, ◌≡◌, refl, ap, ◌∙◌, inl, inr, true, List, [], ◌∷◌, ◌++◌, arith,
}
use robot_framework_ros.Platform.{Platform}
use robot_framework_ros.Messages.{Nodestate, state_running}
use robot_framework_ros.BaseNode.State.{
  Base, Derived, Node, Methods, Loop, loop_100hz, loop1, loop2, loop3, timer_of, next_cycle, tick,
}
use robot_framework_ros.BaseNode.Timing.{measure_time_diff}
use robot_framework_ros.BaseNode.Loops.{
  serve, poll, poll_each, update, loop_order, is_enabled, is_due, period,
}
use robot_framework_ros.BaseNode.Loops.Schedule.{Frame, poll-Frame}
use robot_framework_ros.BaseNode.Loops.Order.{
  Absent, loop_order-split, poll-timer_ne, poll_each-timer-Absent,
}
use robot_framework_ros.BaseNode.Loops.Once.{
  cycles_of, serve-cycles_self, is_enabled-Frame, request_running,
}
use robot_framework_ros.BaseNode.Run.Invariants.{
  IsUndisturbed, IsKept, run_loop-kept, poll-kept, poll_each-kept,
}

module _ ⦃p : Platform⦄ where
  -- By every reading of the clock from the r-th on and before the s-th, the period of the loop has
  -- passed since its last run.
  abbrev pub IsDueBetween : ℕ → ℕ → Loop → Base → Type 0
  IsDueBetween r s l b =
      (k : ℕ)
      → r ≤ k
      → k < s
      → p.at_most (period l b) (measure_time_diff (p.now k) (timer_of l b.timers).last) ≡ true

  period-Frame : (l : Loop) (b b' : Base) → Frame b b' → period l b' ≡ period l b
  period-Frame loop1 b b' f = ground arith
  period-Frame loop2 b b' f = ground arith
  period-Frame loop3 b b' f = ground arith
  period-Frame loop_100hz b b' f = refl
  period-Frame _ b b' f = refl

  -- The state of the node is none of a loop's business.
  pub is_enabled-state :
      (l : Loop) (b : Base) (s : Nodestate)
      → is_enabled l (record b { node_state = s }) ≡ is_enabled l b
  is_enabled-state loop1 b s = refl
  is_enabled-state loop2 b s = refl
  is_enabled-state loop3 b s = refl
  is_enabled-state loop_100hz b s = refl
  is_enabled-state _ b s = refl

  period-state :
      (l : Loop) (b : Base) (s : Nodestate) → period l (record b { node_state = s }) ≡ period l b
  period-state loop1 b s = refl
  period-state loop2 b s = refl
  period-state loop3 b s = refl
  period-state loop_100hz b s = refl
  period-state _ b s = refl

  pub IsDueBetween-state :
      (r end : ℕ) (l : Loop) (b : Base) (s : Nodestate)
      → IsDueBetween r end l b
      → IsDueBetween r end l (record b { node_state = s })
  IsDueBetween-state r end l b s due k h g = rw (period-state l b s) (due k h g)

  pub IsDueBetween-Frame :
      (r end : ℕ) (l : Loop) (b b' : Base)
      → Frame b b'
      → timer_of l b'.timers ≡ timer_of l b.timers
      → IsDueBetween r end l b
      → IsDueBetween r end l b'
  IsDueBetween-Frame r end l b b' f e due k h g = rw (period-Frame l b b' f, e) (due k h g)

  pub later-IsUndisturbed :
      {U E : Type 0} (r : ℕ) → IsUndisturbed (λ (d : Derived U E). r ≤ d.reads)
  later-IsUndisturbed r = record {
    read = λ d j h. omega (arith, h);
    heartbeat = λ d msg h. h;
    diagnostic = λ d msg h. h;
    ready_to_arm = λ d msg h. h;
  }

  abbrev pub running : Base → Base
  running b = record b { node_state = record { state = state_running } }

  -- The virtual methods and the callbacks do not turn the clock back.
  abbrev pub KeepsTime : {U E : Type 0} → Methods U E → Type 0
  KeepsTime {U} {E} m = (r : ℕ) → IsKept (λ (d : Derived U E). r ≤ d.reads) m

  module _ {U E : Type 0} (m : Methods U E) where
    poll-served :
        (l : Loop) (n : Node U E)
        → is_enabled l n.base ≡ true
        → is_due l n ≡ true
        → cycles_of l (poll l m n).base ≡ next_cycle (cycles_of l n.base)
    unfolding poll
    poll-served l n on due =
        rw (on, due) (serve-cycles_self m l (record n { derived = tick n.derived }))

    module _ (later : KeepsTime m) where
      -- The block of an enabled loop reads the clock.
      pub poll-reads :
          (l : Loop) (n : Node U E)
          → is_enabled l n.base ≡ true
          → n.derived.reads < (poll l m n).derived.reads
      unfolding poll serve
      poll-reads l n on =
          let read : Node U E = record n { derived = tick n.derived } in
          let ran =
            run_loop-kept (λ d. n.derived.reads + 1 ≤ d.reads)
              (later-IsUndisturbed (n.derived.reads + 1)) m (later (n.derived.reads + 1)) l read
              (omega arith) in
          elim (Bool-cases (is_due l n)) [
            | inl e ↦ rw (on, e) (omega (arith, ran))
            | inr e ↦ rw (on, e) (omega arith)
          ]

      pub poll_each-reads :
          (ls : List Loop) (n : Node U E) → n.derived.reads ≤ (poll_each ls m n).derived.reads
      poll_each-reads ls n =
          poll_each-kept (λ d. n.derived.reads ≤ d.reads) (later-IsUndisturbed n.derived.reads) m
            (later n.derived.reads) ls n (omega arith)

      poll_each-served :
          (r end : ℕ) (l : Loop) (before after : List Loop) (n : Node U E)
          → Absent l before
          → Absent l after
          → is_enabled l n.base ≡ true
          → IsDueBetween r end l n.base
          → r ≤ n.derived.reads
          → (poll_each (before ++ (l ∷ after)) m n).derived.reads ≤ end
          → cycles_of l (poll_each (before ++ (l ∷ after)) m n).base
            ≡ next_cycle (cycles_of l n.base)
      unfolding poll_each
      poll_each-served r end l [] after n g h on due from upto =
          let k = poll-reads l n on in
          let j = poll_each-reads after (poll l m n) in
          ap (λ t. t.cycles) (poll_each-timer-Absent m l after (poll l m n) h)
          ∙ poll-served l n on (due n.derived.reads from (omega (arith, k, j, upto)))
      poll_each-served r end l (b ∷ before) after n g h on due from upto =
          let frame = poll-Frame m b n in
          let same = poll-timer_ne m l b n g.0 in
          poll_each-served r end l before after (poll b m n) g.1 h
            (is_enabled-Frame m l _ _ frame ∙ on) (IsDueBetween-Frame r end l _ _ frame same due)
            (poll-kept (λ d. r ≤ d.reads) (later-IsUndisturbed r) m (later r) b n from) upto
          ∙ ap (λ t. next_cycle t.cycles) same

      all-served :
          (r end : ℕ) (l : Loop) (n : Node U E)
          → is_enabled l n.base ≡ true
          → IsDueBetween r end l n.base
          → r ≤ n.derived.reads
          → (poll_each loop_order m n).derived.reads ≤ end
          → cycles_of l (poll_each loop_order m n).base ≡ next_cycle (cycles_of l n.base)
      all-served r end l n on due from =
          let (before, after, e, g, h) = loop_order-split l in
          rw e (poll_each-served r end l before after n g h on due from)

    -- The node when `update` comes to the loops.
    abbrev pub polled_first : Node U E → Node U E
    polled_first n = record {
      base = running n.base;
      derived = m.spin_once (running n.base) n.derived;
    }

    pub update-polls :
        (n : Node U E)
        → (update m n).1 ≡ true
        → update m n ≡ (poll_each loop_order m (polled_first n), true)
    unfolding update
    update-polls n h = elim (request_running m n.base) [
      | inl (s, ok, e) ↦ rw (ok, e) refl
      | inr (_, _, refused, e) ↦ absurd (ground arith)
    ]

    -- An `update` that returns true counts a run of each enabled loop of which, by every reading of
    -- the clock during the update, the period has passed since its last run.
    pub update-counted :
        (n : Node U E) (l : Loop)
        → KeepsTime m
        → (update m n).1 ≡ true
        → is_enabled l n.base ≡ true
        → IsDueBetween n.derived.reads (update m n).0.derived.reads l n.base
        → cycles_of l (update m n).0.base ≡ next_cycle (cycles_of l n.base)
    update-counted n l later h on due =
        let e = update-polls n h in
        rw e (
          all-served later n.derived.reads (update m n).0.derived.reads l (polled_first n)
            (is_enabled-state l n.base _ ∙ on) (IsDueBetween-state _ _ l n.base _ due)
            ((later n.derived.reads).spin_once (running n.base) n.derived (omega arith))
            (rw e (omega arith)))
