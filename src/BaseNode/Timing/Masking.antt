-- ===== src/BaseNode/Timing/Masking.antt =====
-- Slow loops that the timing diagnostic does not show.
use robot_framework_ros.Prelude.{
  ltb, lt→ltb, Bool-cases, Text, text, ℕ, ◌<◌, ◌≡◌, refl, sym, ap, ◌∙◌, inl, inr, Bool, true, false,
  ◌&&◌, some,
}
use robot_framework_ros.Platform.{Platform}
use robot_framework_ros.BaseNode.State.{Base, Node, Methods, UserLoop, Timer}
use robot_framework_ros.BaseNode.Timing.{
  base_run_01hz, min_loop_count, warn_factor, error_factor, measure_time_diff,
  check_timing_diagnostic, check_loop, check_loops, report,
}
use robot_framework_ros.BaseNode.Timing.Verdict.{
  raise, slowdown, timing_level, alarm_of, or_noerror, base_run_01hz-timing_level,
}

module _ ⦃p : Platform⦄ where
  -- A loop3 whose slowdown is above the warning factor and not above the error factor decides.
  alarm_of_third :
      (run_time : p.Real) (b : Base)
      → let slow = slowdown run_time b.timers.third.cycles b.user3.rate in
        b.user3.enabled ≡ true
        → min_loop_count < b.timers.third.cycles
        → p.less error_factor slow ≡ false
        → p.less warn_factor slow ≡ true
        → alarm_of run_time b ≡ some p.level_warn
  unfolding alarm_of raise
  alarm_of_third run_time b on many low high = rw (on, lt→ltb _ _ many, low, high)

  -- When loop3 is enabled, has run more than five cycles and is slow by a factor above 1.5 and not
  -- above 3, the timing diagnostic ends at WARN, also if other loops called for ERROR.
  pub base_run_01hz-masks_error :
      {U E : Type 0} (m : Methods U E) (n : Node U E)
      → let run_time =
          measure_time_diff (p.now (m.run_01hz n.base n.derived).0.reads) n.base.start_time in
        let slow = slowdown run_time n.base.timers.third.cycles n.base.user3.rate in
        n.base.user3.enabled ≡ true
        → min_loop_count < n.base.timers.third.cycles
        → p.less error_factor slow ≡ false
        → p.less warn_factor slow ≡ true
        → timing_level (base_run_01hz m n).0.base ≡ some p.level_warn
  base_run_01hz-masks_error m n on many low high =
      (base_run_01hz-timing_level m n).1
      ∙ ap (λ o. some (or_noerror o)) (alarm_of_third _ n.base on many low high)

  -- Another timer and another rate of loop1.
  abbrev with_loop1 : Timer → UserLoop → Base → Base
  with_loop1 t u b = record b { timers = record (b.timers) { first = t }; user1 = u }

  abbrev swapped : Timer → UserLoop → Base × Bool → Base × Bool
  swapped t u (b, ok) = (with_loop1 t u b, ok)

  module _ (t : Timer) (u : UserLoop) (run_time : p.Real) where
    check_timing_diagnostic-swapped :
        (b : Base) (name : Text) (cycles : ℕ) (expected : p.Real)
        → check_timing_diagnostic (with_loop1 t u b) name run_time cycles expected
          ≡ swapped t u (check_timing_diagnostic b name run_time cycles expected)
    unfolding check_timing_diagnostic report
    check_timing_diagnostic-swapped b name cycles expected =
        let factor = p.div expected (p.div (p.of_count cycles) run_time) in
        elim (Bool-cases (p.less error_factor factor)) [
          | inl e ↦ rw (e, check_timing_diagnostic) refl
          | inr e ↦ elim (Bool-cases (p.less warn_factor factor)) [
            | inl f ↦ rw (e, f, check_timing_diagnostic) refl
            | inr f ↦ rw (e, f, check_timing_diagnostic) refl
          ]
        ]

    -- A check of another loop does not look at loop1.
    check_loop-swapped :
        (enabled : Bool) (name : Text) (cycles : ℕ) (expected : p.Real) (r r' : Base × Bool)
        → r' ≡ swapped t u r
        → check_loop enabled name run_time cycles expected r'
          ≡ swapped t u (check_loop enabled name run_time cycles expected r)
    unfolding check_loop
    check_loop-swapped enabled name cycles expected (b, ok) r' h =
        rw h (elim (Bool-cases (enabled && ltb min_loop_count cycles)) [
          | inl e ↦ rw (e, check_loop, check_timing_diagnostic-swapped b name cycles expected) refl
          | inr e ↦ rw (e, check_loop) refl
        ])

    -- A disabled check looks at nothing.
    check_loop-disabled :
        (enabled : Bool) (name : Text) (cycles : ℕ) (expected : p.Real) (r : Base × Bool)
        → enabled ≡ false
        → check_loop enabled name run_time cycles expected r ≡ r
    unfolding check_loop
    check_loop-disabled enabled name cycles expected (b, ok) off = rw (off, check_loop) refl

    -- The checks of the five loops of fixed rate.
    fixed : Base → Base × Bool
    fixed b = check_loop true (text "loop100Hz") run_time b.timers.hz100.cycles (p.decimal 1000 1) (
        check_loop true (text "loop10Hz") run_time b.timers.hz10.cycles (p.decimal 100 1) (
          check_loop true (text "loop1Hz") run_time b.timers.hz1.cycles (p.decimal 10 1) (
            check_loop true (text "loop01Hz") run_time b.timers.hz01.cycles (p.decimal 1 1) (
              check_loop true (text "loop001Hz") run_time b.timers.hz001.cycles (p.decimal 1 2)
                (b, true)))))

    fixed-swapped : (b : Base) → fixed (with_loop1 t u b) ≡ swapped t u (fixed b)
    unfolding fixed
    fixed-swapped b =
        let ts = b.timers in
        check_loop-swapped true (text "loop100Hz") ts.hz100.cycles (p.decimal 1000 1) _ _ (
          check_loop-swapped true (text "loop10Hz") ts.hz10.cycles (p.decimal 100 1) _ _ (
            check_loop-swapped true (text "loop1Hz") ts.hz1.cycles (p.decimal 10 1) _ _ (
              check_loop-swapped true (text "loop01Hz") ts.hz01.cycles (p.decimal 1 1) _ _ (
                check_loop-swapped true (text "loop001Hz") ts.hz001.cycles (p.decimal 1 2) (b, true)
                  (with_loop1 t u b, true) refl))))

    check_loops-fixed :
        (b : Base)
        → b.user2.enabled ≡ false
        → check_loops run_time b
          ≡ check_loop b.user3.enabled
              (text "loop3")
              run_time
              b.timers.third.cycles
              b.user3.rate
              (fixed b)
    unfolding check_loops fixed
    check_loops-fixed b off =
        ap
          (λ r.
            check_loop b.user3.enabled (text "loop3") run_time b.timers.third.cycles b.user3.rate r)
          (check_loop-disabled b.user2.enabled (text "loop2") b.timers.second.cycles b.user2.rate _
              off
            ∙ check_loop-disabled b.user2.enabled (text "loop1") b.timers.first.cycles b.user1.rate
                (fixed b) off)

    check_loops-swapped :
        (b : Base)
        → b.user2.enabled ≡ false
        → check_loops run_time (with_loop1 t u b) ≡ swapped t u (check_loops run_time b)
    check_loops-swapped b off =
        check_loops-fixed (with_loop1 t u b) off
        ∙ check_loop-swapped b.user3.enabled (text "loop3") b.timers.third.cycles b.user3.rate
            (fixed b) (fixed (with_loop1 t u b)) (fixed-swapped b)
        ∙ ap (swapped t u) (sym (check_loops-fixed b off))

  -- While loop2 is disabled, the timing diagnostic and all other diagnostics of the base class after
  -- `base_run_01hz` do not depend on the cycles and the rate of loop1, whether loop1 is enabled or
  -- not. This is said of a class whose `run_01hz` does the same in both cases.
  pub base_run_01hz-ignores_loop1 :
      {U E : Type 0} (m : Methods U E) (n : Node U E) (t : Timer) (u : UserLoop)
      → let b' = record (n.base) { timers = record (n.base.timers) { first = t }; user1 = u } in
        n.base.user2.enabled ≡ false
        → m.run_01hz b' n.derived ≡ m.run_01hz n.base n.derived
        → (base_run_01hz m (record n { base = b' })).0.base.base_diagnostics
          ≡ (base_run_01hz m n).0.base.base_diagnostics
  unfolding base_run_01hz report
  base_run_01hz-ignores_loop1 m n t u off same =
      let run_time =
        measure_time_diff (p.now (m.run_01hz n.base n.derived).0.reads) n.base.start_time in
      elim (Bool-cases (check_loops run_time n.base).1) [
        | inl e ↦ rw (same, check_loops-swapped t u run_time n.base off, e, base_run_01hz) refl
        | inr e ↦ rw (same, check_loops-swapped t u run_time n.base off, e, base_run_01hz) refl
      ]
