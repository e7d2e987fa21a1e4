-- ===== src/Monitor/Screen/Consistent.antt =====
-- The 10 Hz loop keeps the records of the node window consistent.
use robot_framework_ros.Prelude.{
  if◌then◌else◌, Option-cases, length, Text, ℕ, ◌≡◌, sym, ap, ◌∙◌, inl, inr, Bool, true, false,
  some, List, arith,
}
use mathlib.Core.Path.{subst}
use robot_framework_ros.Platform.{Platform}
use robot_framework_ros.Monitor.NodeInfo.{NodeInfo, new_key_event, update_records}
use robot_framework_ros.Monitor.NodeInfo.Row.{Color, update as update_node_info, update_window}
use robot_framework_ros.Monitor.NodeInfo.Records.{
  IsConsistent, time_passed, key_pressed, handle, handle-IsConsistent, same_ids-IsConsistent, id_in,
}
use robot_framework_ros.Monitor.Diagnostic.{Definitions}
use robot_framework_ros.Monitor.Header.{ArmedStates}
use robot_framework_ros.Monitor.Screen.{
  is_quit, Screen, Shown, step_diagnostic, step_node_info, step_header, step_status, run_10hz,
}

module _ ⦃p : Platform⦄ where
  update_node_info-IsConsistent :
      (t : p.Real) (w w' : NodeInfo) (ok : Bool) (rows : List (Color × Text))
      → update_node_info t w ≡ some (w', ok, rows)
      → IsConsistent w
      → IsConsistent w'
  unfolding update_node_info update_window handle
  update_node_info-IsConsistent t w w' ok rows e h =
      let same : (w'.nodes ≡ (update_records t w).nodes)
          × (w'.record_count ≡ (update_records t w).record_count) =
        ground arith in
      same_ids-IsConsistent (update_records t w) w' same.1 (ap (λ m. length m) same.0)
        (λ a. ap (λ m. id_in a m) same.0) (handle-IsConsistent (time_passed t) w h)

  either :
      (c : Bool) (w v : NodeInfo)
      → IsConsistent w
      → IsConsistent v
      → IsConsistent (if c then w else v)
  either true w v h k = h
  either false w v h k = k

  step_node_info-IsConsistent :
      (key : ℕ) (s s' : Screen) (rows : List (Color × Text))
      → step_node_info key s ≡ some (s', rows)
      → IsConsistent s.node_info
      → IsConsistent s'.node_info
  unfolding step_node_info handle
  step_node_info-IsConsistent key s s' rows e h =
      let w : NodeInfo =
        if s.node_info.focused then (new_key_event key s.node_info).0 else s.node_info in
      let hw : IsConsistent w =
        either s.node_info.focused _ _ (handle-IsConsistent (key_pressed key) s.node_info h) h in
      elim (Option-cases (update_node_info (p.to_sec (p.now s.reads)) w)) [
        | inl f ↦ absurd (ground arith)
        | inr ((w', ok, rows'), f) ↦
            subst IsConsistent (ground arith) (update_node_info-IsConsistent _ w w' ok rows' f hw)
      ]

  step_diagnostic-node_info :
      (defs : Definitions) (s s' : Screen) (rows : List (Color × Text))
      → step_diagnostic defs s ≡ some (s', rows)
      → s'.node_info ≡ s.node_info
  unfolding step_diagnostic
  step_diagnostic-node_info defs s s' rows e = ground arith

  step_header-node_info :
      (a : ArmedStates) (s s' : Screen) (rows : List (Color × Text))
      → step_header a s ≡ some (s', rows)
      → s'.node_info ≡ s.node_info
  unfolding step_header
  step_header-node_info a s s' rows e = ground arith

  pub run_10hz-IsConsistent :
      (defs : Definitions) (a : ArmedStates) (key : ℕ) (s s' : Screen) (shown : Shown)
      → run_10hz defs a key s ≡ some (s', shown)
      → IsConsistent s.node_info
      → IsConsistent s'.node_info
  unfolding run_10hz step_status
  run_10hz-IsConsistent defs a key s s' shown e h =
      let s0 : Screen = record s { kill_node = if is_quit key then true else s.kill_node } in
      elim (Option-cases (step_diagnostic defs s0)) [
        | inl f ↦ absurd (ground arith)
        | inr ((s1, diagnostic_rows), f) ↦ elim (Option-cases (step_header a s1)) [
          | inl g ↦ absurd (ground arith)
          | inr ((s2, header_rows), g) ↦ elim (Option-cases (step_node_info key s2)) [
            | inl k ↦ absurd (ground arith)
            | inr ((s3, node_rows), k) ↦
                let one = step_diagnostic-node_info defs s0 s1 diagnostic_rows f in
                let two = step_header-node_info a s1 s2 header_rows g in
                let three =
                  step_node_info-IsConsistent key s2 s3 node_rows k
                    (subst IsConsistent (sym (two ∙ one)) h) in
                let same : s3.node_info ≡ s'.node_info = ground arith in
                subst IsConsistent same three
          ]
        ]
      ]
