-- ===== src/BaseNode/Loops.antt =====
-- `update` and the loops that it serves, of core/BaseNode/BaseNode.cpp. `ros::Rate::sleep` only
-- waits.
pub mod Schedule
pub mod Order
pub mod Once
pub mod Serving
pub mod Reached
pub mod Publish
use robot_framework_ros.Prelude.{if◌then◌else◌, ℕ, Bool, true, false, List, [], ◌∷◌}
use robot_framework_ros.Core.{DiagnosticMsg}
use robot_framework_ros.Platform.{Platform}
use robot_framework_ros.Messages.{Heartbeat, state_running}
use robot_framework_ros.Translate.Infrastructure.{diagnostic_to_ros, ready_to_arm_to_ros}
use robot_framework_ros.BaseNode.State.{
  Base, Derived, Node, Methods, Timer, Loop, loop_100hz, loop_10hz, loop_1hz, loop_01hz, loop_001hz,
  loop1, loop2, loop3, timer_of, set_timer, next_cycle, tick, emit, heartbeat_sent, diagnostic_sent,
  ready_to_arm_sent,
}
use robot_framework_ros.BaseNode.Lifecycle.{request_node_statechange}
use robot_framework_ros.BaseNode.Timing.{measure_time_diff, base_run_01hz}

abbrev pub loop_order : List Loop
loop_order = loop_100hz ∷ loop_10hz ∷ loop_1hz ∷ loop_01hz ∷ loop_001hz ∷ loop1 ∷ loop2 ∷ loop3 ∷ []

module _ ⦃p : Platform⦄ where
  -- The message has no host name and no base node name: nothing sets them.
  abbrev pub beat : Base → ℕ → Heartbeat
  beat b reads = record {
    stamp = p.now reads;
    host_name = [];
    base_node_name = [];
    node_name = b.node_name;
    node_state = b.node_state;
  }

  -- The seconds between two runs.
  abbrev pub period : Loop → Base → p.Real
  period loop_100hz b = p.decimal 1 2
  period loop_10hz b = p.decimal 1 1
  period loop_1hz b = p.decimal 10 1
  period loop_01hz b = p.decimal 100 1
  period loop_001hz b = p.decimal 1000 1
  period loop1 b = p.div (p.decimal 10 1) b.user1.rate
  period loop2 b = p.div (p.decimal 10 1) b.user2.rate
  period loop3 b = p.div (p.decimal 10 1) b.user3.rate

  abbrev pub is_enabled : Loop → Base → Bool
  is_enabled loop1 b = b.user1.enabled
  is_enabled loop2 b = b.user2.enabled
  is_enabled loop3 b = b.user3.enabled
  is_enabled _ b = true

module _ ⦃p : Platform⦄ {U E : Type 0} where
  -- `auto [d', status] = run(d)` with the private part as it is.
  abbrev pub on_derived : (Base → Derived U E → Derived U E × Bool) → Node U E → Node U E × Bool
  on_derived run n =
      let (d, status) = run n.base n.derived in (record { base = n.base; derived = d }, status)

  unfoldable pub base_run_100hz : Methods U E → Node U E → Node U E × Bool
  base_run_100hz m n = on_derived m.run_100hz n

  unfoldable pub base_run_10hz : Methods U E → Node U E → Node U E × Bool
  base_run_10hz m n =
      let d = emit (heartbeat_sent (beat n.base n.derived.reads)) (tick n.derived) in
      on_derived m.run_10hz (record n { derived = d })

  -- The loop over `diagnostics_`.
  unfoldable pub send_diagnostics : Base → List DiagnosticMsg → Derived U E → Derived U E
  send_diagnostics b [] d = d
  send_diagnostics b (x ∷ xs) d =
      let msg = record (diagnostic_to_ros x) { stamp = p.now d.reads; node_name = b.node_name } in
      send_diagnostics b xs (emit (diagnostic_sent msg) (tick d))

  unfoldable pub send_ready_to_arm : Base → Derived U E → Derived U E
  send_ready_to_arm b d =
      if b.ready_to_arm_publish_enabled
      then (let msg = record (ready_to_arm_to_ros d.ready_to_arm) {
        stamp = p.now d.reads;
        node_name = b.node_name;
      } in
          emit (ready_to_arm_sent msg) (tick d))
      else d

  unfoldable pub base_run_1hz : Methods U E → Node U E → Node U E × Bool
  unfolding send_diagnostics send_ready_to_arm
  base_run_1hz m n =
      let d = send_diagnostics n.base n.derived.diagnostics n.derived in
      on_derived m.run_1hz (record n { derived = send_ready_to_arm n.base d })

  unfoldable pub base_run_001hz : Methods U E → Node U E → Node U E × Bool
  base_run_001hz m n = on_derived m.run_001hz n

  -- What `update` calls for a loop.
  unfoldable pub run_loop : Loop → Methods U E → Node U E → Node U E × Bool
  unfolding base_run_100hz base_run_10hz base_run_1hz base_run_01hz base_run_001hz
  run_loop loop_100hz m n = base_run_100hz m n
  run_loop loop_10hz m n = base_run_10hz m n
  run_loop loop_1hz m n = base_run_1hz m n
  run_loop loop_01hz m n = base_run_01hz m n
  run_loop loop_001hz m n = base_run_001hz m n
  run_loop loop1 m n = on_derived m.run_loop1 n
  run_loop loop2 m n = on_derived m.run_loop2 n
  run_loop loop3 m n = on_derived m.run_loop3 n

  -- The run of a loop that is due, its counter, and its timer.
  unfoldable pub serve : Loop → Methods U E → Node U E → Node U E
  serve l m n =
      let n' = (run_loop l m n).0 in
      let t = n'.base.timers in
      let d = n'.derived in
      let timer : Timer = record {
        last = p.now d.reads;
        cycles = next_cycle (timer_of l t).cycles;
      } in
      record { base = record (n'.base) { timers = set_timer l timer t }; derived = tick d }

  abbrev pub is_due : Loop → Node U E → Bool
  is_due l n =
      p.at_most (period l n.base)
        (measure_time_diff (p.now n.derived.reads) (timer_of l n.base.timers).last)

  -- One block of `update`: the clock is read only if the loop is enabled.
  unfoldable pub poll : Loop → Methods U E → Node U E → Node U E
  poll l m n =
      if is_enabled l n.base
      then (let read = record n { derived = tick n.derived } in
          if is_due l n then serve l m read else read)
      else n

  -- The blocks one after the other.
  unfoldable pub poll_each : List Loop → Methods U E → Node U E → Node U E
  poll_each [] m n = n
  poll_each (l ∷ ls) m n = poll_each ls m (poll l m n)

  unfoldable pub update : Methods U E → Node U E → Node U E × Bool
  update m n =
      let (b, status) = request_node_statechange n.base state_running false in
      if status
      then (poll_each loop_order m (record { base = b; derived = m.spin_once b n.derived }), true)
      else (record n { base = b }, false)
