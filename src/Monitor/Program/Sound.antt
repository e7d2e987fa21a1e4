-- ===== src/Monitor/Program/Sound.antt =====
-- What the loops and the callbacks of the monitor keep.
use robot_framework_ros.Prelude.{
  Bool-cases, Option-cases, ℕ, zero, suc, inl, inr, Option, none, some, List, [], ◌∷◌,
}
use mathlib.Core.Path.{subst}
use robot_framework_ros.Platform.{Platform}
use robot_framework_ros.BaseNode.State.{Base}
use robot_framework_ros.BaseNode.Loops.{update}
use robot_framework_ros.BaseNode.Run.Invariants.{IsUndisturbed, IsKept, update-kept}
use robot_framework_ros.Monitor.NodeInfo.Records.{
  IsConsistent, heartbeat_came, ready_came, handle, handle-IsConsistent,
}
use robot_framework_ros.Monitor.Network.{rescan_ros_network}
use robot_framework_ros.Monitor.Network.Subscriptions.{
  IsSubscribed, update_monitor_list-IsSubscribed,
}
use robot_framework_ros.Monitor.Screen.{
  Screen, run_10hz as screen_10hz, arm_command_callback, heartbeat_callback, ready_to_arm_callback,
  diagnostic_callback,
}
use robot_framework_ros.Monitor.Screen.Consistent.{run_10hz-IsConsistent}
use robot_framework_ros.Monitor.Program.{
  Monitor, Surroundings, Incoming, arm_command_came, ready_to_arm_came, diagnostic_came,
  heartbeat_came as beat_came, MonitorState, MonitorNode, receive, run_10hz, run_1hz, methods,
  is_killed, monitor_loop,
}

module _ ⦃p : Platform⦄ where
  -- The record count of the node window is its number of nodes, no ids clash, and each monitored
  -- topic is subscribed once.
  abbrev pub IsSound : Option Monitor → Type 0
  IsSound none = Unit
  IsSound (some m) = IsConsistent m.screen.node_info × IsSubscribed m.network

  abbrev pub IsSoundState : MonitorState → Type 0
  IsSoundState d = IsSound d.own

  pub sound-IsUndisturbed : IsUndisturbed IsSoundState
  sound-IsUndisturbed = record {
    read = λ d k h. h;
    heartbeat = λ d msg h. h;
    diagnostic = λ d msg h. h;
    ready_to_arm = λ d msg h. h;
  }

  on_own :
      (o : Option Monitor) (f : Monitor → Monitor)
      → ((m : Monitor) → IsSound (some m) → IsSound (some (f m)))
      → IsSound o
      → IsSound (elim o [ none ↦ none | some m ↦ some (f m) ])
  on_own none f k h = tt
  on_own (some m) f k h = k m h

  receive-IsSound :
      (msgs : List Incoming) (d : MonitorState) → IsSoundState d → IsSoundState (receive msgs d)
  unfolding receive arm_command_callback heartbeat_callback ready_to_arm_callback
      diagnostic_callback handle
  receive-IsSound [] d h = h
  receive-IsSound (arm_command_came msg ∷ rest) d h =
      receive-IsSound rest _ (on_own d.own _ (λ m k. k) h)
  receive-IsSound (beat_came msg ∷ rest) d h = receive-IsSound rest _ (
      on_own d.own _ (λ m k. (handle-IsConsistent (heartbeat_came msg) m.screen.node_info k.0, k.1))
        h)
  receive-IsSound (ready_to_arm_came msg ∷ rest) d h =
      receive-IsSound rest _ (
        on_own d.own _ (λ m k. (handle-IsConsistent (ready_came msg) m.screen.node_info k.0, k.1))
          h)
  receive-IsSound (diagnostic_came msg ∷ rest) d h =
      receive-IsSound rest _ (on_own d.own _ (λ m k. k) h)

  run_10hz-IsSound :
      (s : Surroundings) (b : Base) (d : MonitorState)
      → IsSoundState d
      → IsSoundState (run_10hz s b d).0
  unfolding run_10hz
  run_10hz-IsSound s b d h = elim (Option-cases d.own) [
    | inl e ↦ rw (e, run_10hz) h
    | inr (m, e) ↦
        let sound : IsSound (some m) = subst IsSound e h in
        let screen : Screen = record (m.screen) { reads = d.reads } in
        elim (Option-cases (screen_10hz s.definitions s.armed_states (s.key d.reads) screen)) [
          | inl f ↦ rw (e, run_10hz, f) tt
          | inr ((screen', shown), f) ↦
              rw (e, run_10hz, f)
                (
                  run_10hz-IsConsistent s.definitions s.armed_states (s.key d.reads) screen screen'
                      shown f sound.0,
                  sound.1,
                )
        ]
  ]

  run_1hz-IsSound :
      (s : Surroundings) (b : Base) (d : MonitorState)
      → IsSoundState d
      → IsSoundState (run_1hz s b d).0
  unfolding run_1hz rescan_ros_network
  run_1hz-IsSound s b d h =
      on_own d.own _ (λ m k. (k.0, update_monitor_list-IsSubscribed _ _ _ m.network k.1)) h

  methods-IsKept :
      (s : Surroundings) (arrivals : ℕ → List Incoming) → IsKept IsSoundState (methods s arrivals)
  unfolding methods
  methods-IsKept s arrivals = record {
    run_100hz = λ b d h. h;
    run_10hz = run_10hz-IsSound s;
    run_1hz = run_1hz-IsSound s;
    run_01hz = λ b d h. h;
    run_001hz = λ b d h. h;
    run_loop1 = λ b d h. h;
    run_loop2 = λ b d h. h;
    run_loop3 = λ b d h. h;
    spin_once = λ b d h. receive-IsSound (arrivals d.reads) d h;
  }

  pub monitor_loop-IsSound :
      (s : Surroundings) (arrivals : ℕ → List Incoming) (rounds : ℕ) (n : MonitorNode)
      → IsSoundState n.derived
      → IsSoundState (monitor_loop rounds (methods s arrivals) n).0.derived
  unfolding monitor_loop
  monitor_loop-IsSound s arrivals zero n h = h
  monitor_loop-IsSound s arrivals (suc rounds) n h =
      let m = methods s arrivals in
      let k = methods-IsKept s arrivals in
      let n' = (update m n).0 in
      let spun = k.spin_once n'.base _ (update-kept IsSoundState sound-IsUndisturbed m k n h) in
      elim (Bool-cases (is_killed n.derived)) [
        | inl e ↦ rw (e, monitor_loop) h
        | inr e ↦ elim (Bool-cases (update m n).1) [
          | inl f ↦ rw (e, f, monitor_loop) (monitor_loop-IsSound s arrivals rounds _ spun)
          | inr f ↦ rw (e, f, monitor_loop) spun
        ]
      ]
