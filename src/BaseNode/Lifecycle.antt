-- ===== src/BaseNode/Lifecycle.antt =====
-- The lifecycle of a node: `request_node_statechange`, `initBaseNodeDiagnostics`, `base_start` and
-- `base_restart` of core/BaseNode/BaseNode.cpp. Log lines are left out.
pub mod Machine
use robot_framework_ros.Prelude.{◌==◌, if◌then◌else◌, length, ℕ, ◌+◌, Bool, true, false, none, some}
use robot_framework_ros.Prelude.Table.{lookup, insert, number_key}
use robot_framework_ros.Platform.{Platform}
use robot_framework_ros.Messages.{state_unknown, state_initializing, state_starting, state_running}
use robot_framework_ros.BaseNode.State.{Timers, Base, Node, Methods}

-- `state_change_allowed` of `request_node_statechange`.
unfoldable pub state_change_allowed : ℕ → ℕ → Bool → Bool
state_change_allowed current new true = false
state_change_allowed current new false =
    if current == state_unknown
    then new == state_initializing
    else if current == state_initializing
    then new == state_starting
    else if current == state_starting
    then new == state_running
    else if current == state_running
    then new == state_starting
    else false

module _ ⦃p : Platform⦄ where
  unfoldable pub request_node_statechange : Base → ℕ → Bool → Base × Bool
  request_node_statechange b new override =
      let current = b.node_state.state in
      if current == new
      then (b, true)
      else if state_change_allowed current new override
      then (record b { node_state = record { state = new } }, true)
      else (b, false)

  -- `emplace` keeps the value of a key that is there.
  unfoldable pub init_base_node_diagnostics : Base → ℕ → ℕ → ℕ → Base × Bool
  init_base_node_diagnostics b system subsystem process =
      let diagnostic = p.make_diagnostic system subsystem process p.type_timing in
      let kept = lookup diagnostic.diagnostic_type b.base_diagnostics in
      (
        elim kept [
          | none ↦ record b {
            base_diagnostics = insert diagnostic.diagnostic_type diagnostic b.base_diagnostics;
          }
          | some old ↦ b
        ],
        true,
      )

  -- The eight `last_… = ros::Time::now()` lines of `base_start`, the first reading being the n-th.
  abbrev restart_timers : ℕ → Timers → Timers
  restart_timers n t = record {
    hz100 = record { last = p.now n; cycles = t.hz100.cycles };
    hz10 = record { last = p.now (n + 1); cycles = t.hz10.cycles };
    hz1 = record { last = p.now (n + 2); cycles = t.hz1.cycles };
    hz01 = record { last = p.now (n + 3); cycles = t.hz01.cycles };
    hz001 = record { last = p.now (n + 4); cycles = t.hz001.cycles };
    first = record { last = p.now (n + 5); cycles = t.first.cycles };
    second = record { last = p.now (n + 6); cycles = t.second.cycles };
    third = record { last = p.now (n + 7); cycles = t.third.cycles };
  }

  module _ {U E : Type 0} where
    unfoldable pub base_start : Node U E → Node U E × Bool
    unfolding request_node_statechange
    base_start n =
        let d = n.derived in
        let b = record n.base { start_time = p.now d.reads } in
        if length b.base_diagnostics == 0
        then (record { base = b; derived = record d { reads = d.reads + 1 } }, false)
        else (let (b', status) = request_node_statechange b state_starting false in
            (
              record {
                base = record b' { timers = restart_timers (d.reads + 1) b'.timers };
                derived = record d { reads = d.reads + 9 };
              },
              status,
            ))

    unfoldable pub base_restart : Methods U E → Node U E → Node U E × Bool
    base_restart m n = let (n', status) = m.start n in if status then (n', true) else (n', false)
