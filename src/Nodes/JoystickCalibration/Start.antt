-- ===== src/Nodes/JoystickCalibration/Start.antt =====
-- The node never starts.
use robot_framework_ros.Prelude.{
  Bool-cases, Option-cases, Text, ℕ, ◌≡◌, refl, inl, inr, Bool, true, false, some, List, [], arith,
}
use robot_framework_ros.Platform.{Platform}
use robot_framework_ros.BaseNode.State.{Derived, new_base}
use robot_framework_ros.BaseNode.Lifecycle.{base_start}
use robot_framework_ros.BaseNode.Run.{Exit, finished, run_main}
use robot_framework_ros.Nodes.Startup.{base_init-diagnostics}
use robot_framework_ros.Nodes.JoystickCalibration.{
  Joystick, Sent, JoystickNode, init, joystick_program,
}

module _ ⦃p : Platform⦄ where
  -- `main` reached its loop.
  abbrev pub reached_loop : {U E : Type 0} → Exit U E → Bool
  reached_loop (finished n) = true
  reached_loop _ = false

  init-diagnostics :
      (opens : Text → Bool) (ids : Text × Text × Text) (n n' : JoystickNode) (ok : Bool)
      → init opens ids n ≡ some (n', ok)
      → n'.base.base_diagnostics ≡ n.base.base_diagnostics
  unfolding init
  init-diagnostics opens ids n n' ok e = ground (arith, base_init-diagnostics n)

  base_start-empty : (n : JoystickNode) → n.base.base_diagnostics ≡ [] → (base_start n).1 ≡ false
  unfolding base_start
  base_start-empty n e = ground arith

  -- Whatever ROS answers, the files allow and the messages are, the program of the joystick
  -- calibration ends before its main loop: its `init` sets up no base diagnostic, so `base_start`
  -- is false.
  pub joystick_program-ends :
      (opens : Text → Bool) (ids : Text × Text × Text) (arrivals : ℕ → List (List p.Real))
      (d : Derived Joystick Sent) (rounds : ℕ)
      → reached_loop (run_main (joystick_program opens ids arrivals d) rounds) ≡ false
  unfolding run_main joystick_program new_base
  joystick_program-ends opens ids arrivals d rounds =
      let n : JoystickNode = record { base = new_base; derived = d } in
      elim (Option-cases (init opens ids n)) [
        | inl e ↦ rw (e, run_main) refl
        | inr ((n', ok), e) ↦ elim (Bool-cases ok) [
          | inl good ↦
              rw (e, good, base_start-empty n' (init-diagnostics opens ids n n' ok e), run_main)
                refl
          | inr bad ↦ rw (e, bad, run_main) refl
        ]
      ]
