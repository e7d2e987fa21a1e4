-- ===== src/Tests/BaseNode.antt =====
-- The base node at concrete inputs.
use robot_framework_ros.Prelude.{ℕ, ◌≡◌, refl, ◌↔◌, ◌⊎◌, inl, Bool, true, false, some, arith}
use robot_framework_ros.Messages.{state_starting, state_running}
use robot_framework_ros.BaseNode.State.{Base, Derived, Methods, Timer, UserLoop, loop3}
use robot_framework_ros.BaseNode.Lifecycle.{request_node_statechange, base_start}
use robot_framework_ros.BaseNode.Lifecycle.Machine.{Transition, request_node_statechange-Transition}
use robot_framework_ros.BaseNode.Loops.{update}
use robot_framework_ros.BaseNode.Loops.Once.{Moved, update-Moved, update_iff}
use robot_framework_ros.BaseNode.Timing.{base_run_01hz, measure_time_diff}
use robot_framework_ros.BaseNode.Timing.Verdict.{
  timing_level, alarm_of, or_noerror, base_run_01hz-timing_level,
}
use robot_framework_ros.BaseNode.Timing.Masking.{base_run_01hz-ignores_loop1}
use robot_framework_ros.BaseNode.Init.{base_init, logger_level}
use robot_framework_ros.BaseNode.Init.Outcome.{
  IsInitialized, base_init_iff, base_init-IsInitialized,
}
use robot_framework_ros.BaseNode.Run.{main_loop}
use robot_framework_ros.BaseNode.Run.Liveness.{main_loop_goes_on}
use robot_framework_ros.Tests.Bench.{bench, Small, node_in}

abbrev pass : Base → Derived Small Small → Derived Small Small × Bool
pass b d = (d, true)

-- A node whose loops and callbacks do nothing.
abbrev idle : Methods Small Small
idle = record {
  start = base_start;
  run_100hz = pass;
  run_10hz = pass;
  run_1hz = pass;
  run_01hz = pass;
  run_001hz = pass;
  run_loop1 = pass;
  run_loop2 = pass;
  run_loop3 = pass;
  spin_once = λ b d. d;
}

abbrev base_in : ℕ → Base
base_in s = (node_in s).base

request_node_statechange-Transition_example :
    let (b', ok) = request_node_statechange (base_in 1) state_starting false in
    ((ok ≡ true) ↔ ((1 ≡ state_starting) ⊎ Transition 1 state_starting))
    × (ok ≡ true → b' ≡ record (base_in 1) { node_state = record { state = state_starting } })
    × (ok ≡ false → b' ≡ base_in 1)
request_node_statechange-Transition_example =
    request_node_statechange-Transition (base_in 1) state_starting

update-Moved_example :
    ((update idle (node_in 2)).0.base.node_state.state ≡ state_running)
    × Moved loop3 (base_in 2) (update idle (node_in 2)).0.base
update-Moved_example =
    update-Moved idle (node_in 2) loop3 ((update_iff idle (node_in 2)).0.1 (inl refl))

base_run_01hz-timing_level_example :
    ((base_run_01hz idle (node_in 3)).1 ≡ true)
    × (timing_level (base_run_01hz idle (node_in 3)).0.base
        ≡ some (or_noerror (alarm_of 1000 (base_in 3))))
unfolding measure_time_diff
base_run_01hz-timing_level_example = base_run_01hz-timing_level idle (node_in 3)

abbrev fast_timer : Timer
fast_timer = record { last = 0; cycles = 100 }

abbrev slow_loop : UserLoop
slow_loop = record { rate = 400000; enabled = true }

base_run_01hz-ignores_loop1_example :
    (base_run_01hz idle (record (node_in 3) {
      base = record (base_in 3) {
        timers = record (base_in 3).timers { first = fast_timer };
        user1 = slow_loop;
      };
    })).0.base.base_diagnostics
    ≡ (base_run_01hz idle (node_in 3)).0.base.base_diagnostics
base_run_01hz-ignores_loop1_example =
    base_run_01hz-ignores_loop1 idle (node_in 3) fast_timer slow_loop refl refl

base_init-IsInitialized_example : IsInitialized (base_init (node_in 0)).0.base
unfolding logger_level
base_init-IsInitialized_example =
    base_init-IsInitialized (node_in 0) refl
      ((base_init_iff (node_in 0)).1 (inl refl, ground arith))

main_loop_goes_on_example :
    ((main_loop 100 idle (node_in 2)).1 ≡ true)
    × ((main_loop 100 idle (node_in 2)).0.base.node_state.state ≡ state_running)
main_loop_goes_on_example = main_loop_goes_on idle 99 (node_in 2) (inl refl)
