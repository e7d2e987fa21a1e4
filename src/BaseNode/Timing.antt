-- ===== src/BaseNode/Timing.antt =====
-- The timing diagnostic: `checkTimingDiagnostic` and `base_run_01hz` of core/BaseNode/BaseNode.cpp,
-- and `measure_time_diff` of core/utils/CoreUtility/CoreUtility.cpp. The mutex is left out: the
-- only other thread of a node does not enter these methods.
pub mod Verdict
pub mod Masking
use robot_framework_ros.Prelude.{
  ltb, if◌then◌else◌, Text, text, ℕ, Bool, true, false, ◌&&◌, none, some, ◌++◌,
}
use robot_framework_ros.Prelude.Table.{Table, lookup, insert, number_key}
use robot_framework_ros.Core.{DiagnosticMsg}
use robot_framework_ros.Platform.{Platform}
use robot_framework_ros.BaseNode.State.{Base, Node, Methods, tick}

module _ ⦃p : Platform⦄ where
  unfoldable pub measure_time_diff : p.Time → p.Time → p.Real
  measure_time_diff a b = p.sub (p.to_sec a) (p.to_sec b)

  -- `WARN_LOOPRATE_SLOWDOWN_FACTOR` and `ERROR_LOOPRATE_SLOWDOWN_FACTOR`.
  abbrev pub warn_factor : p.Real
  warn_factor = p.decimal 15 1

  abbrev pub error_factor : p.Real
  error_factor = p.decimal 30 1

  -- `m_baseNodeDiagnostics[key]`, which makes a missing entry.
  abbrev pub entry : ℕ → Table ℕ DiagnosticMsg → DiagnosticMsg
  entry key m = elim (lookup key m) [ none ↦ p.default_diagnostic | some d ↦ d ]

  -- The three assignments to `m_baseNodeDiagnostics[TIMING]`.
  unfoldable pub report : ℕ → ℕ → Text → Base → Base
  report level message description b = record b {
    base_diagnostics =
        insert p.type_timing
          (record (entry p.type_timing b.base_diagnostics) {
            level = level;
            diagnostic_message = message;
            description = description;
          })
          b.base_diagnostics;
  }

  pub slow_text : Text → Text → p.Real → p.Real → p.Real → Text
  slow_text name how expected actual factor =
      text "Loop: "
      ++ name
      ++ how
      ++ p.to_string expected
      ++ text " Actual: "
      ++ p.to_string actual
      ++ text " Slowdown: "
      ++ p.to_string factor
      ++ text "X!"

  unfoldable pub check_timing_diagnostic : Base → Text → p.Real → ℕ → p.Real → Base × Bool
  check_timing_diagnostic b name run_time cycle_count expected =
      let actual = p.div (p.of_count cycle_count) run_time in
      let factor = p.div expected actual in
      if p.less error_factor factor
      then (
        report p.level_error p.message_failed
            (slow_text name (text " is Very Slow.  Expected Rate: ") expected actual factor) b,
        false,
      )
      else if p.less warn_factor factor
      then (
        report p.level_warn p.message_failed
            (slow_text name (text " is Slow.  Expected Rate: ") expected actual factor) b,
        false,
      )
      else (b, true)

  abbrev pub min_loop_count : ℕ
  min_loop_count = 5

  -- `if (enabled) if (cycles > minLoopCountToWait) timingOk &= checkTimingDiagnostic(...)`.
  unfoldable pub check_loop : Bool → Text → p.Real → ℕ → p.Real → Base × Bool → Base × Bool
  check_loop enabled name run_time cycles expected (b, ok) =
      if enabled && ltb min_loop_count cycles
      then (let (b', fine) = check_timing_diagnostic b name run_time cycles expected in
          (b', ok && fine))
      else (b, ok)

  -- The checks in their order. The guard of loop1 is `loop2_enabled`, as in the source.
  unfoldable pub check_loops : p.Real → Base → Base × Bool
  check_loops run_time b =
      let t = b.timers in
      check_loop b.user3.enabled (text "loop3") run_time t.third.cycles b.user3.rate (
        check_loop b.user2.enabled (text "loop2") run_time t.second.cycles b.user2.rate (
          check_loop b.user2.enabled (text "loop1") run_time t.first.cycles b.user1.rate (
            check_loop true (text "loop100Hz") run_time t.hz100.cycles (p.decimal 1000 1) (
              check_loop true (text "loop10Hz") run_time t.hz10.cycles (p.decimal 100 1) (
                check_loop true (text "loop1Hz") run_time t.hz1.cycles (p.decimal 10 1) (
                  check_loop true (text "loop01Hz") run_time t.hz01.cycles (p.decimal 1 1) (
                    check_loop true (text "loop001Hz") run_time t.hz001.cycles (p.decimal 1 2)
                      (b, true))))))))

  unfoldable pub base_run_01hz : {U E : Type 0} → Methods U E → Node U E → Node U E × Bool
  base_run_01hz m n =
      let (d, status) = m.run_01hz n.base n.derived in
      let run_time = measure_time_diff (p.now d.reads) n.base.start_time in
      let (b, timing_ok) = check_loops run_time n.base in
      (
        record {
          base =
              if timing_ok
              then report p.level_noerror p.message_noerror (text "Loop Timing Ok.") b
              else b;
          derived = tick d;
        },
        status,
      )
