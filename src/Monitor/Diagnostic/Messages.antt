-- ===== src/Monitor/Diagnostic/Messages.antt =====
-- Which diagnostic the window has for a node and a type.
use robot_framework_ros.Prelude.{
  ◌==◌, if◌then◌else◌, Bool-cases, Text, text_eq, text_eq_iff, ℕ, ◌≡◌, refl, ap, ◌∙◌, inl, inr,
  ◌&&◌, Option, none, some, arith,
}
use robot_framework_ros.Prelude.Table.{
  Table, lookup, insert, map_values, lookup-insert, lookup-map_values, text_key, number_key,
}
use robot_framework_ros.Core.{to_byte}
use robot_framework_ros.Platform.{Platform}
use robot_framework_ros.Messages.{Diagnostic}
use robot_framework_ros.Monitor.Diagnostic.{
  NodeDiagnosticMonitor, Monitors, DiagnosticWindow, of_node, old_delta, new_diagnostic_msg,
  check_diagnostic, update_diagnostics,
}

module _ ⦃p : Platform⦄ where
  abbrev pub entry_of : Text → ℕ → Monitors → Option NodeDiagnosticMonitor
  entry_of name kind m = lookup kind (of_node name m)

  abbrev pub diagnostic_at : ℕ → Table ℕ NodeDiagnosticMonitor → Option Diagnostic
  diagnostic_at kind m = elim (lookup kind m) [ none ↦ none | some d ↦ some d.node_diagnostic ]

  -- The last message for a node and a type, as the window has it.
  abbrev pub diagnostic_of : Text → ℕ → DiagnosticWindow → Option Diagnostic
  diagnostic_of name kind w = diagnostic_at kind (of_node name w.monitors)

  of_node-insert :
      (x name : Text) (v : Table ℕ NodeDiagnosticMonitor) (m : Monitors)
      → of_node name (insert x v m) ≡ (if text_eq x name then v else of_node name m)
  of_node-insert x name v m = ground (arith, lookup-insert x name v m)

  -- A message replaces what the window has for its node and its type, and nothing else.
  pub new_diagnostic_msg-diagnostic_of :
      (msg : Diagnostic) (name : Text) (kind : ℕ) (w : DiagnosticWindow)
      → diagnostic_of name kind (new_diagnostic_msg msg w) ≡ (
          if text_eq msg.node_name name && (msg.diagnostic_type == kind)
          then some msg
          else diagnostic_of name kind w)
  unfolding new_diagnostic_msg
  new_diagnostic_msg-diagnostic_of msg name kind w =
      let entry : NodeDiagnosticMonitor = record {
        node_diagnostic = msg;
        last_update_sec = w.current_time;
        last_update_delta_sec = old_delta msg.diagnostic_type (of_node msg.node_name w.monitors);
      } in
      let inner = insert msg.diagnostic_type entry (of_node msg.node_name w.monitors) in
      ap (diagnostic_at kind) (of_node-insert msg.node_name name inner w.monitors)
      ∙ elim (Bool-cases (text_eq msg.node_name name)) [
        | inl same ↦ rw same (
            ground (
              arith,
              lookup-insert msg.diagnostic_type kind entry (of_node msg.node_name w.monitors),
              ap (λ x. of_node x w.monitors) ((text_eq_iff msg.node_name name).0 same),
            ))
        | inr other ↦ rw other refl
      ]

  of_node-update :
      (t : p.Real) (name : Text) (m : Monitors)
      → of_node name (map_values (map_values (check_diagnostic t)) m)
        ≡ map_values (check_diagnostic t) (of_node name m)
  unfolding map_values
  of_node-update t name m =
      ground (arith, lookup-map_values (map_values (check_diagnostic t)) name m)

  -- An update at time t sets the level of a diagnostic to UNKNOWN when its last message is more
  -- than five seconds before t, and changes no diagnostic otherwise.
  pub update_diagnostics-diagnostic_of :
      (t : p.Real) (name : Text) (kind : ℕ) (w : DiagnosticWindow)
      → diagnostic_of name kind (update_diagnostics t w) ≡ elim (entry_of name kind w.monitors) [
        | none ↦ none
        | some d ↦
            if p.less (p.decimal 50 1) (p.sub t d.last_update_sec)
            then some (record d.node_diagnostic { level = to_byte p.level_unknown })
            else some d.node_diagnostic
      ]
  unfolding update_diagnostics check_diagnostic
  update_diagnostics-diagnostic_of t name kind w =
      ap (diagnostic_at kind) (of_node-update t name w.monitors)
      ∙ ground (arith, lookup-map_values (check_diagnostic t) kind (of_node name w.monitors))
