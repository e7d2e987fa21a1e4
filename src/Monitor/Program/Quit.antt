-- ===== src/Monitor/Program/Quit.antt =====
-- The end of the system monitor by a key.
use robot_framework_ros.Prelude.{
  Bool-cases, Option-cases, ℕ, zero, suc, ◌≤◌, ◌<◌, ◌≡◌, refl, ◌∙◌, inl, inr, true, List, [], ◌∷◌,
  arith,
}
use robot_framework_ros.Platform.{Platform}
use robot_framework_ros.BaseNode.State.{Base, loop_10hz}
use robot_framework_ros.BaseNode.Loops.{update, base_run_10hz, run_loop}
use robot_framework_ros.BaseNode.Loops.Serving.{IsDueBetween}
use robot_framework_ros.BaseNode.Loops.Reached.{update-reached}
use robot_framework_ros.BaseNode.Run.Invariants.{IsUndisturbed, IsKept}
use robot_framework_ros.Monitor.Screen.{
  Screen, is_quit, run_10hz as screen_10hz, arm_command_callback, heartbeat_callback,
  ready_to_arm_callback, diagnostic_callback,
}
use robot_framework_ros.Monitor.Screen.Selected.{run_10hz-selected_node}
use robot_framework_ros.Monitor.Program.{
  Surroundings, Incoming, arm_command_came, heartbeat_came, ready_to_arm_came, diagnostic_came,
  MonitorState, MonitorNode, receive, run_10hz, run_1hz, methods, is_killed, monitor_loop,
  on_screen,
}

module _ ⦃p : Platform⦄ where
  abbrev IsKilled : MonitorState → Type 0
  IsKilled d = is_killed d ≡ true

  IsKilled-IsUndisturbed : IsUndisturbed IsKilled
  unfolding is_killed
  IsKilled-IsUndisturbed = record {
    read = λ d k h. h;
    heartbeat = λ d msg h. h;
    diagnostic = λ d msg h. h;
    ready_to_arm = λ d msg h. h;
  }

  -- A callback touches neither the end nor the clock.
  on_screen-same :
      (f : Screen → Screen) (d : MonitorState)
      → ((x : Screen) → (f x).kill_node ≡ x.kill_node)
      → is_killed (on_screen f d) ≡ is_killed d
  unfolding is_killed
  on_screen-same f d h = elim (Option-cases d.own) [
    | inl e ↦ rw (e, is_killed) refl
    | inr (m, e) ↦ rw (e, is_killed) (h m.screen)
  ]

  receive-same :
      (msgs : List Incoming) (d : MonitorState)
      → (is_killed (receive msgs d) ≡ is_killed d) × ((receive msgs d).reads ≡ d.reads)
  unfolding receive arm_command_callback heartbeat_callback ready_to_arm_callback
      diagnostic_callback
  receive-same [] d = (refl, refl)
  receive-same (arm_command_came msg ∷ rest) d =
      let h = receive-same rest (on_screen (arm_command_callback msg) d) in
      (h.0 ∙ on_screen-same _ d (λ x. refl), h.1)
  receive-same (heartbeat_came msg ∷ rest) d =
      let h = receive-same rest (on_screen (heartbeat_callback msg) d) in
      (h.0 ∙ on_screen-same _ d (λ x. refl), h.1)
  receive-same (ready_to_arm_came msg ∷ rest) d =
      let h = receive-same rest (on_screen (ready_to_arm_callback msg) d) in
      (h.0 ∙ on_screen-same _ d (λ x. refl), h.1)
  receive-same (diagnostic_came msg ∷ rest) d =
      let h = receive-same rest (on_screen (diagnostic_callback msg) d) in
      (h.0 ∙ on_screen-same _ d (λ x. refl), h.1)

  -- What the 10 Hz loop does to the end and to the clock.
  run_10hz-killed :
      (s : Surroundings) (b : Base) (d : MonitorState)
      → (is_killed d ≡ true → is_killed (run_10hz s b d).0 ≡ true)
        × (is_quit (s.key d.reads) ≡ true → is_killed (run_10hz s b d).0 ≡ true)
        × (d.reads ≤ (run_10hz s b d).0.reads)
  unfolding run_10hz is_killed
  run_10hz-killed s b d = elim (Option-cases d.own) [
    | inl e ↦ rw (e, run_10hz, is_killed) (ground (arith, e))
    | inr (m, e) ↦
        let screen : Screen = record (m.screen) { reads = d.reads } in
        elim (Option-cases (screen_10hz s.definitions s.armed_states (s.key d.reads) screen)) [
          | inl f ↦ rw (e, run_10hz, f, is_killed) ((λ h. refl), (λ h. refl), omega arith)
          | inr ((screen', shown), f) ↦
              let (_, _, end, reads) =
                run_10hz-selected_node s.definitions s.armed_states (s.key d.reads) screen screen'
                  shown f in
              rw (e, run_10hz, f, is_killed)
                ((λ h. ground (arith, end, h)), (λ h. ground (arith, end, h)), omega (arith, reads))
        ]
  ]

  run_1hz-killed :
      (s : Surroundings) (b : Base) (d : MonitorState) → is_killed (run_1hz s b d).0 ≡ is_killed d
  unfolding run_1hz is_killed
  run_1hz-killed s b d = elim (Option-cases d.own) [
    | inl e ↦ rw (e, is_killed) refl
    | inr (m, e) ↦ rw (e, is_killed) refl
  ]

  methods-IsKilled :
      (s : Surroundings) (arrivals : ℕ → List Incoming) → IsKept IsKilled (methods s arrivals)
  unfolding methods
  methods-IsKilled s arrivals = record {
    run_100hz = λ b d h. h;
    run_10hz = λ b d h. (run_10hz-killed s b d).0 h;
    run_1hz = λ b d h. run_1hz-killed s b d ∙ h;
    run_01hz = λ b d h. h;
    run_001hz = λ b d h. h;
    run_loop1 = λ b d h. h;
    run_loop2 = λ b d h. h;
    run_loop3 = λ b d h. h;
    spin_once = λ b d h. (receive-same (arrivals d.reads) d).0 ∙ h;
  }

  -- The monitor does not turn the clock back.
  methods-IsLater :
      (s : Surroundings) (arrivals : ℕ → List Incoming) (r : ℕ)
      → IsKept (λ (d : MonitorState). r ≤ d.reads) (methods s arrivals)
  unfolding methods run_1hz
  methods-IsLater s arrivals r = record {
    run_100hz = λ b d h. h;
    run_10hz = λ b d h. omega (arith, h, (run_10hz-killed s b d).2);
    run_1hz = λ b d h. h;
    run_01hz = λ b d h. h;
    run_001hz = λ b d h. h;
    run_loop1 = λ b d h. h;
    run_loop2 = λ b d h. h;
    run_loop3 = λ b d h. h;
    spin_once = λ b d h. omega (arith, h, (receive-same (arrivals d.reads) d).1);
  }

  -- A monitor that is to stop runs no further round.
  killed-ends :
      (s : Surroundings) (arrivals : ℕ → List Incoming) (rounds : ℕ) (n : MonitorNode)
      → IsKilled n.derived
      → monitor_loop rounds (methods s arrivals) n ≡ (n, true)
  unfolding monitor_loop
  killed-ends s arrivals zero n h = refl
  killed-ends s arrivals (suc rounds) n h = rw (h, monitor_loop) refl

  -- The key q or Q ends the system monitor: if in a round `update` returns true, and at every
  -- reading of the clock during this update the 10 Hz loop is due and the key that is read is q or
  -- Q, then no round follows it, however long `ros::ok()` stays true.
  pub quit-ends :
      (s : Surroundings) (arrivals : ℕ → List Incoming) (rounds : ℕ) (n : MonitorNode)
      → let m = methods s arrivals in
        let end = (update m n).0.derived.reads in
        (update m n).1 ≡ true
        → IsDueBetween n.derived.reads end loop_10hz n.base
        → ((k : ℕ) → n.derived.reads ≤ k → k < end → is_quit (s.key k) ≡ true)
        → monitor_loop (suc rounds) m n ≡ monitor_loop 1 m n
  unfolding monitor_loop run_loop base_run_10hz methods
  quit-ends s arrivals rounds n ok due quit =
      let m = methods s arrivals in
      let killed : IsKilled (update m n).0.derived =
        update-reached m (methods-IsLater s arrivals) IsKilled n loop_10hz IsKilled-IsUndisturbed
          (methods-IsKilled s arrivals)
          (λ x f from upto.
            let h = run_10hz-killed s x.base _ in
            h.1 (quit _ (omega (arith, from)) (omega (arith, h.2, upto))))
          ok refl due in
      let spun = (methods-IsKilled s arrivals).spin_once (update m n).0.base _ killed in
      elim (Bool-cases (is_killed n.derived)) [
        | inl e ↦ rw (e, monitor_loop) refl
        | inr e ↦ rw (e, ok, monitor_loop) (killed-ends s arrivals rounds _ spun)
      ]
