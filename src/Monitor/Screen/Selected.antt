-- ===== src/Monitor/Screen/Selected.antt =====
-- Which node's diagnostics are shown.
use robot_framework_ros.Prelude.{
  if◌then◌else◌, Option-cases, Text, ℕ, ◌+◌, ◌≡◌, inl, inr, true, ◌||◌, some, List, arith,
}
use robot_framework_ros.Platform.{Platform}
use robot_framework_ros.Monitor.NodeInfo.Row.{Color}
use robot_framework_ros.Monitor.Diagnostic.{Definitions, set_node_to_monitor}
use robot_framework_ros.Monitor.Header.{ArmedStates}
use robot_framework_ros.Monitor.Screen.{
  Screen, Shown, is_quit, step_diagnostic, step_node_info, step_header, step_status, run_10hz,
}

module _ ⦃p : Platform⦄ where
  step_diagnostic-node :
      (defs : Definitions) (s s' : Screen) (rows : List (Color × Text))
      → step_diagnostic defs s ≡ some (s', rows)
      → (s'.diagnostic.node_to_monitor ≡ s.selected_node)
        × (s'.kill_node ≡ s.kill_node)
        × (s'.node_info ≡ s.node_info)
        × (s'.reads ≡ s.reads + 1)
  unfolding step_diagnostic set_node_to_monitor
  step_diagnostic-node defs s s' rows e = ground arith

  step_header-keeps :
      (a : ArmedStates) (s s' : Screen) (rows : List (Color × Text))
      → step_header a s ≡ some (s', rows)
      → (s'.diagnostic ≡ s.diagnostic)
        × (s'.kill_node ≡ s.kill_node)
        × (s'.node_info ≡ s.node_info)
        × (s'.reads ≡ s.reads + 1)
  unfolding step_header
  step_header-keeps a s s' rows e = ground arith

  step_node_info-node :
      (key : ℕ) (s s' : Screen) (rows : List (Color × Text))
      → step_node_info key s ≡ some (s', rows)
      → (s'.selected_node ≡ s'.node_info.selected_node)
        × (s'.kill_node ≡ s.kill_node)
        × (s'.diagnostic ≡ s.diagnostic)
        × (s'.reads ≡ s.reads + 1)
  unfolding step_node_info
  step_node_info-node key s s' rows e = ground arith

  -- After a 10 Hz loop that throws nothing the diagnostic window monitors the node that was
  -- selected before the loop, the monitor's selected node is the one of the node window, and the
  -- monitor stops exactly when it was to stop before or the key is q or Q. The clock was read four
  -- times.
  pub run_10hz-selected_node :
      (defs : Definitions) (a : ArmedStates) (key : ℕ) (s s' : Screen) (shown : Shown)
      → run_10hz defs a key s ≡ some (s', shown)
      → (s'.diagnostic.node_to_monitor ≡ s.selected_node)
        × (s'.selected_node ≡ s'.node_info.selected_node)
        × (s'.kill_node ≡ (is_quit key || s.kill_node))
        × (s'.reads ≡ s.reads + 4)
  unfolding run_10hz step_status
  run_10hz-selected_node defs a key s s' shown e =
      let s0 : Screen = record s { kill_node = if is_quit key then true else s.kill_node } in
      elim (Option-cases (step_diagnostic defs s0)) [
        | inl f ↦ absurd (ground arith)
        | inr ((s1, diagnostic_rows), f) ↦ elim (Option-cases (step_header a s1)) [
          | inl g ↦ absurd (ground arith)
          | inr ((s2, header_rows), g) ↦ elim (Option-cases (step_node_info key s2)) [
            | inl k ↦ absurd (ground arith)
            | inr ((s3, node_rows), k) ↦
                let one = step_diagnostic-node defs s0 s1 diagnostic_rows f in
                let two = step_header-keeps a s1 s2 header_rows g in
                let three = step_node_info-node key s2 s3 node_rows k in ground arith
          ]
        ]
      ]
