-- ===== src/Monitor/Main/Exits.antt =====
-- How the system monitor exits.
use robot_framework_ros.Prelude.{
  Bool-cases, Option-cases, ℕ, ◌≡◌, refl, ap, ◌∙◌, ◌≢◌, ◌↔◌, ◌⊎◌, inl, inr, Bool, true, false, not,
  ◌&&◌, ◌||◌, none, some, List, arith,
}
use robot_framework_ros.Core.{ArmCommandMsg}
use robot_framework_ros.Platform.{Platform}
use robot_framework_ros.BaseNode.State.{new_base}
use robot_framework_ros.BaseNode.Init.{base_init, logger_level}
use robot_framework_ros.BaseNode.Init.Outcome.{base_init_iff}
use robot_framework_ros.BaseNode.Run.Liveness.{base_start_iff}
use robot_framework_ros.Nodes.Setup.{
  Setup, Outcome, crashed, failed, done, ◌>>=◌, checked, unread, subscribe, call_base_init,
}
use robot_framework_ros.Nodes.Setup.Leads.{Leads, Holds, ◌▷◌}
use robot_framework_ros.Nodes.Setup.Ready.{
  fresh, initializing, ready, At, call_base_init-At, subscribe-At, unread_diagnostics-At,
  At-IsReady,
}
use robot_framework_ros.Monitor.Program.{
  Terminal, Monitor, Surroundings, Incoming, MonitorState, MonitorNode, new_monitor, init_windows,
  init_screen, set_up,
}
use robot_framework_ros.Monitor.Program.Narrow.{has_failed, has_crashed, is_narrow, init_screen_iff}
use robot_framework_ros.Monitor.Program.Throughout.{base_init-own}
use robot_framework_ros.Monitor.Main.{constructed, after_loop, after_init, monitor_main, exit_code}

module _ ⦃p : Platform⦄ where
  init_screen-At : (t : Terminal) → Leads (At initializing) (init_screen t) (At initializing)
  unfolding init_screen
  init_screen-At t = record {
    leads = λ n x. elim (Bool-cases t.has_colors) [
      | inl e ↦ elim (Option-cases n.derived.own) [
        | inl f ↦ rw (e, f, init_screen, Holds) tt
        | inr (m, f) ↦ elim (Option-cases (init_windows t m)) [
          | inl g ↦ rw (e, f, init_screen, g, Holds) tt
          | inr (m', g) ↦ rw (e, f, init_screen, g, Holds) (record { at = x.at })
        ]
      ]
      | inr e ↦ rw (e, init_screen, Holds) tt
    ];
  }

  set_up-At : (t : Terminal) → Leads (At fresh) (set_up t) (At ready)
  unfolding set_up
  set_up-At t = call_base_init-At ▷ λ _.
      init_screen-At t ▷ λ _. unread_diagnostics-At 0 0 0 ▷ λ _. subscribe-At _

  module _ {N : Type 0} where
    quiet-then :
        {A B : Type 0} (f : A → Setup N B) (r : Outcome N A)
        → ((a : A) (n : N) → (has_failed (f a n) ≡ false) × (has_crashed (f a n) ≡ false))
        → let r' = elim r as (λ x. Outcome N B) [
          | crashed ↦ crashed
          | failed n' ↦ failed n'
          | done a n' ↦ f a n'
        ] in
          (has_failed r' ≡ has_failed r) × (has_crashed r' ≡ has_crashed r)
    quiet-then f crashed h = (refl, refl)
    quiet-then f (failed n) h = (refl, refl)
    quiet-then f (done a n) h = h a n

    -- A call that always goes on adds neither a failure nor a crash.
    then-quiet :
        {A B : Type 0} (m : Setup N A) (f : A → Setup N B) (n : N)
        → ((a : A) (n' : N) → (has_failed (f a n') ≡ false) × (has_crashed (f a n') ≡ false))
        → (has_failed ((m >>= f) n) ≡ has_failed (m n))
          × (has_crashed ((m >>= f) n) ≡ has_crashed (m n))
    unfolding ◌>>=◌
    then-quiet m f n h = quiet-then f (m n) h

    -- A checked call fails or hands on.
    checked-then :
        {B : Type 0} (call : N → N × Bool) (f : Unit {0} → Setup N B) (n : N)
        → (has_failed ((checked call >>= f) n) ≡ (not (call n).1 || has_failed (f tt (call n).0)))
          × (has_crashed ((checked call >>= f) n) ≡ ((call n).1 && has_crashed (f tt (call n).0)))
    unfolding ◌>>=◌ checked
    checked-then call f n = elim (Bool-cases (call n).1) [
      | inl e ↦ rw (e, ◌>>=◌, checked) (refl, refl)
      | inr e ↦ rw (e, ◌>>=◌, checked) (refl, refl)
    ]

  -- When `init` returns false, and when it throws.
  set_up_iff :
      (t : Terminal) (n : MonitorNode) (m : Monitor)
      → n.derived.own ≡ some m
      → (has_failed (set_up t n) ≡ (not (base_init n).1 || not t.has_colors))
        × (has_crashed (set_up t n) ≡ ((base_init n).1 && (t.has_colors && is_narrow t)))
  unfolding set_up ◌>>=◌ call_base_init unread subscribe
  set_up_iff t n m x =
      let (failed_one, crashed_one) = checked-then base_init _ n in
      let (failed_rest, crashed_rest) =
        then-quiet (init_screen t) _ (base_init n).0 (λ a n'. (refl, refl)) in
      let (failed_screen, crashed_screen) =
        init_screen_iff t m (base_init n).0 (base_init-own n ∙ x) in
      (
        failed_one ∙ ap (λ b. not (base_init n).1 || b) (failed_rest ∙ failed_screen),
        crashed_one ∙ ap (λ b. (base_init n).1 && b) (crashed_rest ∙ crashed_screen),
      )

  after_loop-ne : (n : MonitorNode) → exit_code (after_loop n) ≢ some 1
  after_loop-ne n = elim (Option-cases n.derived.own) [
    | inl e ↦ rw e (ground arith)
    | inr (m, e) ↦ rw e (ground arith)
  ]

  -- What follows `init` exits with 1 only when `init` has failed.
  after_init_lem :
      (s : Surroundings) (arrivals : ℕ → List Incoming) (rounds : ℕ)
      (r : Outcome MonitorNode (Unit {0}))
      → Holds (At ready) r
      → ((exit_code (after_init s arrivals rounds r) ≡ some 1) ↔ (has_failed r ≡ true))
        × (has_crashed r ≡ true → exit_code (after_init s arrivals rounds r) ≡ none)
  unfolding after_init
  after_init_lem s arrivals rounds crashed h = ground arith
  after_init_lem s arrivals rounds (failed n) h = ground arith
  after_init_lem s arrivals rounds (done u n) h =
      let x = At-IsReady n h in
      let ok = (base_start_iff n).0.1 (x.diagnostics, inl x.state) in
      rw ok
        (((λ e. absurd (after_loop-ne _ e)), (λ e. ground (arith, e))), (λ e. ground (arith, e)))

  -- The system monitor exits with 1 exactly when its verbosity level is one that `base_init` does
  -- not know or the terminal has no colours, however long it runs and whatever it meets: `start`
  -- never fails after an `init` that succeeds. If neither is the case and the terminal is so narrow
  -- that the node window or the diagnostic window gets fewer than two columns, an exception ends it.
  pub monitor_main_iff :
      (s : Surroundings) (arrivals : ℕ → List Incoming) (command : ArmCommandMsg) (d : MonitorState)
      (rounds : ℕ)
      → let code = exit_code (monitor_main s arrivals command d rounds) in
        ((code ≡ some 1)
          ↔ ((logger_level p.this_node_name ≡ none) ⊎ (s.terminal.has_colors ≡ false)))
        × ((logger_level p.this_node_name ≢ none)
              × (s.terminal.has_colors ≡ true)
              × (is_narrow s.terminal ≡ true)
            → code ≡ none)
  unfolding monitor_main new_base
  monitor_main_iff s arrivals command d rounds =
      let n = constructed command d in
      let t = s.terminal in
      let ((one, of_one), crash) =
        after_init_lem s arrivals rounds (set_up t n)
          ((set_up-At t).leads n (record { at = tt })) in
      let (failed_iff, crashed_iff) = set_up_iff t n (new_monitor command) refl in
      let (known, of_known) = base_init_iff n in
      ground (arith, one, of_one, crash, failed_iff, crashed_iff, known, of_known)
