-- ===== src/Monitor/Program/Throughout.antt =====
-- What holds of the monitor throughout.
use robot_framework_ros.Prelude.{
  Bool-cases, Option-cases, Text, ℕ, ◌≡◌, ◌∙◌, inl, inr, true, some, List, [], ◌∷◌, arith,
}
use mathlib.Core.Path.{subst}
use robot_framework_ros.Core.{ArmCommandMsg}
use robot_framework_ros.Platform.{Platform}
use robot_framework_ros.BaseNode.Lifecycle.{base_start}
use robot_framework_ros.BaseNode.Init.{base_init, finish_init, advertise_all}
use robot_framework_ros.BaseNode.Run.Invariants.{base_start-kept}
use robot_framework_ros.Nodes.Setup.{done, subscribe, call_base_init}
use robot_framework_ros.Nodes.Setup.Leads.{Leads, Holds, ◌▷◌, checked-Leads, unread-Leads}
use robot_framework_ros.Monitor.NodeInfo.Records.{
  handle, handle_all, handle_all-IsConsistent, focus_set,
}
use robot_framework_ros.Monitor.Network.Subscriptions.{rescans, rescans-IsSubscribed}
use robot_framework_ros.Monitor.Window.{dashed, node_info_coordinates, diagnostic_coordinates}
use robot_framework_ros.Monitor.Program.{
  place, Terminal, Surroundings, Incoming, MonitorNode, new_monitor, init_windows, init_screen,
  set_up, methods, monitor_loop,
}
use robot_framework_ros.Monitor.Program.Sound.{
  IsSound, IsSoundState, sound-IsUndisturbed, monitor_loop-IsSound,
}

module _ ⦃p : Platform⦄ where
  pub base_init-own : (n : MonitorNode) → (base_init n).0.derived.own ≡ n.derived.own
  unfolding base_init finish_init advertise_all
  base_init-own n = ground arith

  init_windows-IsSound :
      (t : Terminal) (command : ArmCommandMsg) → IsSound (init_windows t (new_monitor command))
  unfolding init_windows new_monitor handle handle_all rescans
  init_windows-IsSound t command = elim (Option-cases (dashed (place t node_info_coordinates))) [
    | inl e ↦ rw (e, init_windows) tt
    | inr (line, e) ↦ elim (Option-cases (dashed (place t diagnostic_coordinates))) [
      | inl f ↦ rw (e, f, init_windows) tt
      | inr (other_line, f) ↦
          let shown = t.newwin (place t node_info_coordinates) in
          rw (e, f, init_windows)
            (handle_all-IsConsistent shown (focus_set true ∷ []), rescans-IsSubscribed [] [])
    ]
  ]

  -- `init` on the members of a new monitor.
  abbrev pub IsNew : ArmCommandMsg → MonitorNode → Type 0
  IsNew command n = n.derived.own ≡ some (new_monitor command)

  abbrev IsSoundNode : MonitorNode → Type 0
  IsSoundNode n = IsSoundState n.derived

  call_base_init-IsNew :
      (command : ArmCommandMsg) → Leads (IsNew command) call_base_init (IsNew command)
  unfolding call_base_init
  call_base_init-IsNew command = checked-Leads base_init (λ n x ok. base_init-own n ∙ x)

  init_screen-IsSound :
      (t : Terminal) (command : ArmCommandMsg) → Leads (IsNew command) (init_screen t) IsSoundNode
  unfolding init_screen
  init_screen-IsSound t command = record {
    leads = λ n x. elim (Bool-cases t.has_colors) [
      | inl e ↦ elim (Option-cases (init_windows t (new_monitor command))) [
        | inl f ↦ rw (e, x, init_screen, f) tt
        | inr (m, f) ↦ rw (e, x, init_screen, f) (subst IsSound f (init_windows-IsSound t command))
      ]
      | inr e ↦ rw (e, init_screen) tt
    ];
  }

  subscribe-IsSound : (topic : Text) → Leads IsSoundNode (subscribe topic) IsSoundNode
  unfolding subscribe
  subscribe-IsSound topic = record { leads = λ n x. x }

  set_up-IsSound :
      (t : Terminal) (command : ArmCommandMsg) → Leads (IsNew command) (set_up t) IsSoundNode
  unfolding set_up
  set_up-IsSound t command = call_base_init-IsNew command ▷ λ _.
      init_screen-IsSound t command ▷ λ _. unread-Leads _ (λ n x. x) ▷ λ _. subscribe-IsSound _

  -- A system monitor that is new and whose `init` succeeds, whatever the terminal, the master, the
  -- keys and the messages are, and after any number of rounds: unless an exception has ended it, the
  -- record count of its node window is the number of nodes modulo 2^16, no two of at most 65536
  -- nodes share an id, no topic is monitored twice, and the subscriptions of each kind are exactly
  -- its monitored topics.
  pub monitor_loop-IsSoundState :
      (s : Surroundings) (arrivals : ℕ → List Incoming) (command : ArmCommandMsg)
      (n n' : MonitorNode) (rounds : ℕ)
      → n.derived.own ≡ some (new_monitor command)
      → set_up s.terminal n ≡ done tt n'
      → IsSoundState (monitor_loop rounds (methods s arrivals) (base_start n').0).0.derived
  monitor_loop-IsSoundState s arrivals command n n' rounds x e =
      let sound : IsSoundNode n' =
        subst (λ r. Holds IsSoundNode r) e ((set_up-IsSound s.terminal command).leads n x) in
      monitor_loop-IsSound s arrivals rounds _
        (base_start-kept IsSoundState sound-IsUndisturbed n' sound)
