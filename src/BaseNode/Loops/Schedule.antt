-- ===== src/BaseNode/Loops/Schedule.antt =====
-- Which loops an `update` runs, and what it leaves alone.
use robot_framework_ros.Prelude.{
  if◌then◌else◌, Bool-cases, Text, ℕ, ◌≡◌, refl, inl, inr, Bool, true, List, [], ◌∷◌, arith,
}
use robot_framework_ros.Platform.{Platform}
use robot_framework_ros.BaseNode.State.{Base, Node, Methods, Loop, loop_100hz, loop_01hz, tick}
use robot_framework_ros.BaseNode.Timing.{
  report, check_timing_diagnostic, check_loop, check_loops, base_run_01hz,
}
use robot_framework_ros.BaseNode.Loops.{run_loop, serve, poll, is_due, poll_each, is_enabled}

module _ ⦃p : Platform⦄ where
  -- What the loops leave as it is in the private part of the node: all but the timers and the
  -- diagnostics.
  pub record Frame (b b' : Base) : Type 0 where
    pub start_time : b'.start_time ≡ b.start_time
    pub publish : b'.ready_to_arm_publish_enabled ≡ b.ready_to_arm_publish_enabled
    pub state : b'.node_state ≡ b.node_state
    pub name : b'.node_name ≡ b.node_name
    pub namespace : b'.robot_namespace ≡ b.robot_namespace
    pub first : b'.user1 ≡ b.user1
    pub second : b'.user2 ≡ b.user2
    pub third : b'.user3 ≡ b.user3
    pub max_rate : b'.max_rate ≡ b.max_rate

  pub Frame-refl : (b : Base) → Frame b b
  Frame-refl b = ground arith

  pub Frame-trans : (a b c : Base) → Frame a b → Frame b c → Frame a c
  Frame-trans a b c f g = ground arith

  -- A loop itself moves no timer either.
  abbrev pub Kept : Base → Base → Type 0
  Kept b b' = Frame b b' × (b'.timers ≡ b.timers)

  check_loop-Kept :
      (a : Base) (on : Bool) (name : Text) (t : p.Real) (c : ℕ) (e : p.Real) (s : Base × Bool)
      → Kept a s.0
      → Kept a (check_loop on name t c e s).0
  unfolding check_loop check_timing_diagnostic report
  check_loop-Kept a on name t c e (b, ok) h = ground arith

  check_loops-Kept : (t : p.Real) (b : Base) → Kept b (check_loops t b).0
  unfolding check_loops
  check_loops-Kept t b =
      let c = check_loop-Kept b in
      c _ _ _ _ _ _ (
        c _ _ _ _ _ _ (
          c _ _ _ _ _ _ (
            c _ _ _ _ _ _ (
              c _ _ _ _ _ _
                (c _ _ _ _ _ _ (c _ _ _ _ _ _ (c _ _ _ _ _ (b, true) (Frame-refl b, refl))))))))

  settle-Kept :
      (a : Base) (level message : ℕ) (description : Text) (s : Base × Bool)
      → Kept a s.0
      → Kept a (if s.1 then report level message description s.0 else s.0)
  unfolding report
  settle-Kept a level message description (b, ok) h = ground arith

  module _ {U E : Type 0} (m : Methods U E) where
    base_run_01hz-Kept : (n : Node U E) → Kept n.base (base_run_01hz m n).0.base
    unfolding base_run_01hz
    base_run_01hz-Kept n =
        settle-Kept n.base _ _ _ (check_loops _ n.base) (check_loops-Kept _ n.base)

    pub run_loop-Kept : (l : Loop) (n : Node U E) → Kept n.base (run_loop l m n).0.base
    unfolding run_loop
    run_loop-Kept loop_01hz n = base_run_01hz-Kept n
    run_loop-Kept loop_100hz n = (Frame-refl n.base, refl)
    run_loop-Kept _ n = (Frame-refl n.base, refl)

    serve-Frame : (l : Loop) (n : Node U E) → Frame n.base (serve l m n).base
    unfolding serve
    serve-Frame l n =
        let kept = (run_loop-Kept l n).0 in
        Frame-trans n.base (run_loop l m n).0.base _ kept (ground arith)

    pub poll_cases {ℓ} :
        (P : Node U E → Type ℓ) (l : Loop) (n : Node U E)
        → P n
        → P (record n { derived = tick n.derived })
        → (is_enabled l n.base ≡ true → P (serve l m (record n { derived = tick n.derived })))
        → P (poll l m n)
    unfolding poll
    poll_cases P l n off early due = elim (Bool-cases (is_enabled l n.base)) [
      | inl e ↦ rw e (elim (Bool-cases (is_due l n)) [ inl d ↦ rw d (due e) | inr d ↦ rw d early ])
      | inr e ↦ rw e off
    ]

    pub poll-Frame : (l : Loop) (n : Node U E) → Frame n.base (poll l m n).base
    poll-Frame l n =
        poll_cases (λ x. Frame n.base x.base) l n (Frame-refl n.base) (Frame-refl n.base)
          (λ _. serve-Frame l (record n { derived = tick n.derived }))

    pub poll_each-Frame : (ls : List Loop) (n : Node U E) → Frame n.base (poll_each ls m n).base
    unfolding poll_each
    poll_each-Frame [] n = Frame-refl n.base
    poll_each-Frame (l ∷ ls) n =
        Frame-trans n.base _ _ (poll-Frame l n) (poll_each-Frame ls (poll l m n))
