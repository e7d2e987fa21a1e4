-- ===== src/BaseNode/Timing/Verdict.antt =====
-- What the timing diagnostic says after `base_run_01hz`.
use robot_framework_ros.Prelude.{
  ltb, if◌then◌else◌, Text, text, ℕ, ◌≡◌, refl, Bool, true, false, ◌&&◌, Option, none, some, List,
  [], ◌∷◌, arith,
}
use robot_framework_ros.Prelude.Table.{lookup, number_key, lookup-insert_self}
use robot_framework_ros.Platform.{Platform}
use robot_framework_ros.BaseNode.State.{Base, Node, Methods}
use robot_framework_ros.BaseNode.Timing.{
  check_timing_diagnostic, check_loop, check_loops, base_run_01hz, report, entry, min_loop_count,
  warn_factor, error_factor, measure_time_diff,
}

module _ ⦃p : Platform⦄ where
  -- `expectedRate / (cycleCount / runTimeSec)`.
  abbrev pub slowdown : p.Real → ℕ → p.Real → p.Real
  slowdown run_time cycles expected = p.div expected (p.div (p.of_count cycles) run_time)

  -- The level that one loop calls for, if it calls for one.
  abbrev pub alarm : p.Real → ℕ → p.Real → Option ℕ
  alarm run_time cycles expected =
      if p.less error_factor (slowdown run_time cycles expected)
      then some p.level_error
      else if p.less warn_factor (slowdown run_time cycles expected)
      then some p.level_warn
      else none

  pub timing_level : Base → Option ℕ
  timing_level b = elim (lookup p.type_timing b.base_diagnostics) [
    | none ↦ none
    | some d ↦ some d.level
  ]

  -- The loops that `base_run_01hz` looks at, in its order: whether it does, cycles and rate.
  pub record Check : Type 0 where
    pub active : Bool
    pub cycles : ℕ
    pub expected : p.Real

  abbrev pub check : Bool → ℕ → p.Real → Check
  check active cycles expected = record { active = active; cycles = cycles; expected = expected }

  pub checks : Base → List Check
  checks b =
      let t = b.timers in
      check true t.hz001.cycles (p.decimal 1 2)
      ∷ check true t.hz01.cycles (p.decimal 1 1)
      ∷ check true t.hz1.cycles (p.decimal 10 1)
      ∷ check true t.hz10.cycles (p.decimal 100 1)
      ∷ check true t.hz100.cycles (p.decimal 1000 1)
      ∷ check b.user2.enabled t.first.cycles b.user1.rate
      ∷ check b.user2.enabled t.second.cycles b.user2.rate
      ∷ check b.user3.enabled t.third.cycles b.user3.rate
      ∷ []

  -- The alarm after one more loop was looked at.
  unfoldable pub raise : p.Real → Check → Option ℕ → Option ℕ
  raise run_time c so_far =
      if c.active && ltb min_loop_count c.cycles
      then (elim (alarm run_time c.cycles c.expected) [ none ↦ so_far | some l ↦ some l ])
      else so_far

  -- The alarm of the last loop that raises one.
  pub last_alarm : p.Real → List Check → Option ℕ → Option ℕ
  last_alarm run_time [] so_far = so_far
  last_alarm run_time (c ∷ cs) so_far = last_alarm run_time cs (raise run_time c so_far)

  -- `ok` says whether no loop was slow so far, and the diagnostic holds the alarm otherwise.
  abbrev Agrees : Base × Bool → Option ℕ → Type 0
  Agrees (b, ok) none = ok ≡ true
  Agrees (b, ok) (some l) = (ok ≡ false) × (timing_level b ≡ some l)

  timing_level-report :
      (level message : ℕ) (description : Text) (b : Base)
      → timing_level (report level message description b) ≡ some level
  unfolding report timing_level
  timing_level-report level message description b = ground (
    arith,
    lookup-insert_self p.type_timing
        (record (entry p.type_timing b.base_diagnostics) {
          level = level;
          diagnostic_message = message;
          description = description;
        })
        b.base_diagnostics,
  )

  check_loop-Agrees :
      (c : Check) (name : Text) (run_time : p.Real) (s : Base × Bool) (so_far : Option ℕ)
      → Agrees s so_far
      → Agrees (check_loop c.active name run_time c.cycles c.expected s) (raise run_time c so_far)
  unfolding check_loop check_timing_diagnostic raise
  check_loop-Agrees c name run_time (b, ok) none h = grind (arith, timing_level-report)
  check_loop-Agrees c name run_time (b, ok) (some l) h = grind (arith, timing_level-report)

  unfoldable pub alarm_of : p.Real → Base → Option ℕ
  unfolding last_alarm checks
  alarm_of run_time b = last_alarm run_time (checks b) none

  check_loops-Agrees :
      (run_time : p.Real) (b : Base) → Agrees (check_loops run_time b) (alarm_of run_time b)
  unfolding check_loops last_alarm alarm_of checks
  check_loops-Agrees run_time b =
      let t = b.timers in
      check_loop-Agrees (check b.user3.enabled t.third.cycles b.user3.rate) _ run_time _ _ (
        check_loop-Agrees (check b.user2.enabled t.second.cycles b.user2.rate) _ run_time _ _ (
          check_loop-Agrees (check b.user2.enabled t.first.cycles b.user1.rate) _ run_time _ _ (
            check_loop-Agrees (check true t.hz100.cycles (p.decimal 1000 1)) _ run_time _ _ (
              check_loop-Agrees (check true t.hz10.cycles (p.decimal 100 1)) _ run_time _ _ (
                check_loop-Agrees (check true t.hz1.cycles (p.decimal 10 1)) _ run_time _ _ (
                  check_loop-Agrees (check true t.hz01.cycles (p.decimal 1 1)) _ run_time _ _ (
                    check_loop-Agrees (check true t.hz001.cycles (p.decimal 1 2)) _ run_time
                      (b, true) none refl)))))))

  -- The level that the diagnostic ends with.
  abbrev pub or_noerror : Option ℕ → ℕ
  or_noerror none = p.level_noerror
  or_noerror (some l) = l

  settled :
      (s : Base × Bool) (o : Option ℕ)
      → Agrees s o
      → timing_level (
          if s.1
          then report p.level_noerror p.message_noerror (text "Loop Timing Ok.") s.0
          else s.0)
        ≡ some (or_noerror o)
  settled (b, ok) none h =
      rw h (timing_level-report p.level_noerror p.message_noerror (text "Loop Timing Ok.") b)
  settled (b, ok) (some l) h = rw (h.0) (h.1)

  -- After the 0.1 Hz loop the timing diagnostic has the level of the last loop, in the order of the
  -- checks, that was found slow (WARN from a slowdown above 1.5, ERROR above 3), and NOERROR when
  -- none was; the loop returns what `run_01hz` returns.
  pub base_run_01hz-timing_level :
      {U E : Type 0} (m : Methods U E) (n : Node U E)
      → let (d, status) = m.run_01hz n.base n.derived in
        let run_time = measure_time_diff (p.now d.reads) n.base.start_time in
        let (n', status') = base_run_01hz m n in
        (status' ≡ status) × (timing_level n'.base ≡ some (or_noerror (alarm_of run_time n.base)))
  unfolding base_run_01hz
  base_run_01hz-timing_level m n =
      let d = (m.run_01hz n.base n.derived).0 in
      let run_time = measure_time_diff (p.now d.reads) n.base.start_time in
      (refl, settled (check_loops run_time n.base) _ (check_loops-Agrees run_time n.base))
