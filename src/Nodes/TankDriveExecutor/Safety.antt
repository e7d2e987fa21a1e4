-- ===== src/Nodes/TankDriveExecutor/Safety.antt =====
-- The start and the outputs of the tank drive node.
use robot_framework_ros.Prelude.{Bool-cases, ℕ, ◌≡◌, refl, inl, inr, true, List, [], ◌∷◌, ◌++◌}
use mathlib.Core.List.{append_assoc}
use robot_framework_ros.Platform.{Platform}
use robot_framework_ros.BaseNode.State.{Base, sent}
use robot_framework_ros.BaseNode.Run.{run_main}
use robot_framework_ros.BaseNode.Run.Invariants.{OfExit}
use robot_framework_ros.BaseNode.Run.Outbox.{messages, messages-snoc}
use robot_framework_ros.Translate.Geometry.{Twist}
use robot_framework_ros.Nodes.Setup.Leads.{Leads, ◌▷◌}
use robot_framework_ros.Nodes.Setup.Ready.{
  own_text-At, fresh, ready, At, change-At, advertise-At, subscribe-At, call_base_init-At,
  call_process-At, call_diagnostics-At,
}
use robot_framework_ros.Nodes.Setup.Silent.{
  IsSilent, ◌▶◌, show_ready-IsSilent, own_text-IsSilent, advertise-IsSilent, subscribe-IsSilent,
  call_base_init-IsSilent, call_process-IsSilent, call_diagnostics-IsSilent,
}
use robot_framework_ros.Nodes.Program.{GoesOn, process_program-GoesOn, process_program-kept}
use robot_framework_ros.Nodes.TankDriveExecutor.{
  Tank, State, Sent, left_sent, right_sent, receive, set_up, run_loop1, run_loop2, tank_program,
}

module _ ⦃p : Platform⦄ {P C : Type 0} (q : Tank P C) where
  set_up-At : Leads (At fresh) (set_up q) (At ready)
  unfolding set_up
  set_up-At = call_base_init-At ▷ λ _. call_process-At _ ▷ λ _. own_text-At _ ▷ λ left.
      call_diagnostics-At _ ▷ λ _. advertise-At _ _ ▷ λ _. own_text-At _ ▷ λ right.
      advertise-At _ _ ▷ λ _.
      own_text-At _ ▷ λ throttle. subscribe-At _ ▷ λ _. call_process-At _ ▷ λ _. change-At _

  set_up-IsSilent : IsSilent (set_up q)
  unfolding set_up
  set_up-IsSilent = call_base_init-IsSilent ▶ λ _. call_process-IsSilent _ ▶ λ _.
      own_text-IsSilent _ ▶ λ left. call_diagnostics-IsSilent _ ▶ λ _. advertise-IsSilent _ _ ▶ λ _.
      own_text-IsSilent _ ▶ λ right. advertise-IsSilent _ _ ▶ λ _. own_text-IsSilent _ ▶ λ throttle.
      subscribe-IsSilent _ ▶ λ _. call_process-IsSilent _ ▶ λ _. show_ready-IsSilent q.common

  -- The drive values in the order in which they went out: a left one and a right one at a time, of
  -- one state of the process, in which it was ready to arm.
  pub data Drives : List Sent → Type 0 where
    none_yet : Drives []
    both_sent :
        (es : List Sent) (x : P)
        → Drives es
        → (q.common.get_ready_to_arm x).ready_to_arm ≡ true
        → Drives (es ++ (left_sent (q.left_drive x) ∷ right_sent (q.right_drive x) ∷ []))

  abbrev pub SentDrives : State q → Type 0
  SentDrives d = Drives (messages d.outbox)

  receive-outbox : (msgs : List Twist) (d : State q) → (receive q msgs d).outbox ≡ d.outbox
  unfolding receive
  receive-outbox [] d = refl
  receive-outbox (msg ∷ rest) d = receive-outbox rest _

  run_loop2-kept : (b : Base) (d : State q) → SentDrives d → SentDrives (run_loop2 q b d).0
  unfolding run_loop2
  run_loop2-kept b d h =
      let x = d.own.process in
      let left = sent (left_sent (q.left_drive x)) in
      let right = sent (right_sent (q.right_drive x)) in
      elim (Bool-cases (q.common.get_ready_to_arm x).ready_to_arm) [
        | inl e ↦
            rw
              (
                e,
                messages-snoc (d.outbox ++ (left ∷ [])) right,
                messages-snoc d.outbox left,
                append_assoc (messages d.outbox) (left_sent (q.left_drive x) ∷ [])
                    (right_sent (q.right_drive x) ∷ []),
              )
              (both_sent (messages d.outbox) x h e)
        | inr e ↦ rw e h
      ]

  -- When `init` of the tank drive succeeds, `start` succeeds and no `update` returns false.
  pub tank_program-GoesOn :
      (arrivals : ℕ → List Twist) (constructed : State q)
      → GoesOn (tank_program q arrivals constructed)
  unfolding tank_program
  tank_program-GoesOn arrivals constructed =
      process_program-GoesOn q.common (set_up q) (run_loop1 q) (run_loop2 q) _ constructed set_up-At

  -- However long the tank drive runs, from a node that has published nothing, and whatever velocity
  -- commands arrive: what it has published are pairs of a left and a right drive value, each pair
  -- the output of the process in a state in which the process was ready to arm.
  pub tank_program-Drives :
      (arrivals : ℕ → List Twist) (constructed : State q) (rounds : ℕ)
      → constructed.outbox ≡ []
      → OfExit SentDrives (run_main (tank_program q arrivals constructed) rounds)
  unfolding tank_program run_loop1 messages
  tank_program-Drives arrivals constructed rounds e =
      process_program-kept q.common (set_up q) (run_loop1 q) (run_loop2 q) _ constructed Drives
        set_up-IsSilent (λ b d h. h) run_loop2-kept
        (λ d h. rw (receive-outbox (arrivals d.reads) d) h) (rw e none_yet) rounds
