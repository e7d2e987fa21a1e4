-- ===== src/BaseNode/Loops/Publish.antt =====
-- What the 1 Hz loop publishes.
use robot_framework_ros.Prelude.{
  if◌then◌else◌, length, Text, ℕ, ◌+◌, ◌≡◌, ap, ◌∙◌, Bool, true, false, List, [], ◌∷◌, ◌++◌, arith,
}
use mathlib.Core.List.{append_assoc, append-nil}
use robot_framework_ros.Core.{DiagnosticMsg, ReadyToArmStatusMsg}
use robot_framework_ros.Platform.{Platform}
use robot_framework_ros.Translate.Infrastructure.{diagnostic_to_ros, ready_to_arm_to_ros}
use robot_framework_ros.BaseNode.State.{
  Base, Derived, Node, Methods, Output, diagnostic_sent, ready_to_arm_sent,
}
use robot_framework_ros.BaseNode.Loops.{
  base_run_1hz, send_diagnostics, send_ready_to_arm, on_derived,
}

module _ ⦃p : Platform⦄ {E : Type 0} where
  -- One message for each diagnostic, in their order, with the node's name and the clock's next
  -- reading.
  unfoldable pub diagnostic_messages : Text → ℕ → List DiagnosticMsg → List (Output E)
  diagnostic_messages name reads [] = []
  diagnostic_messages name reads (x ∷ xs) =
      diagnostic_sent (record (diagnostic_to_ros x) { stamp = p.now reads; node_name = name })
      ∷ diagnostic_messages name (reads + 1) xs

  unfoldable pub ready_messages : Bool → Text → ℕ → ReadyToArmStatusMsg → List (Output E)
  ready_messages false name reads r = []
  ready_messages true name reads r =
      ready_to_arm_sent (record (ready_to_arm_to_ros r) { stamp = p.now reads; node_name = name })
      ∷ []

module _ ⦃p : Platform⦄ {U E : Type 0} where
  send_diagnostics_lem :
      (b : Base) (xs : List DiagnosticMsg) (d : Derived U E)
      → send_diagnostics b xs d ≡ record d {
        reads = d.reads + length xs;
        outbox = d.outbox ++ diagnostic_messages b.node_name d.reads xs;
      }
  unfolding send_diagnostics diagnostic_messages
  send_diagnostics_lem b [] d = ground (arith, append-nil d.outbox)
  send_diagnostics_lem b (x ∷ xs) d =
      let msg = record (diagnostic_to_ros x) { stamp = p.now d.reads; node_name = b.node_name } in
      let d' : Derived U E = record d {
        reads = d.reads + 1;
        outbox = d.outbox ++ (diagnostic_sent msg ∷ []);
      } in
      send_diagnostics_lem b xs d'
      ∙ ground (
        arith,
        append_assoc d.outbox (diagnostic_sent msg ∷ [])
            (diagnostic_messages b.node_name (d.reads + 1) xs),
      )

  ready_lem :
      (b : Base) (d : Derived U E)
      → send_ready_to_arm b d ≡ record d {
        reads = d.reads + (if b.ready_to_arm_publish_enabled then 1 else 0);
        outbox =
            d.outbox
            ++ ready_messages b.ready_to_arm_publish_enabled b.node_name d.reads d.ready_to_arm;
      }
  unfolding send_ready_to_arm ready_messages
  ready_lem b d = ground (arith, append-nil d.outbox)

  -- Before `run_1hz` the 1 Hz loop has published each stored diagnostic once, in order, and then,
  -- if the publication is enabled, the ready-to-arm status, each with the node's name and a time of
  -- its own.
  pub base_run_1hz_lem :
      (m : Methods U E) (n : Node U E)
      → let d = n.derived in
        let name = n.base.node_name in
        let on = n.base.ready_to_arm_publish_enabled in
        let count = length d.diagnostics in
        base_run_1hz m n
        ≡ on_derived m.run_1hz (record n {
          derived = record d {
            reads = d.reads + count + (if on then 1 else 0);
            outbox =
                (d.outbox ++ diagnostic_messages name d.reads d.diagnostics)
                ++ ready_messages on name (d.reads + count) d.ready_to_arm;
          };
        })
  unfolding base_run_1hz
  base_run_1hz_lem m n = ap (on_derived m.run_1hz) (
      ap (λ d. record n { derived = send_ready_to_arm n.base d })
        (send_diagnostics_lem n.base n.derived.diagnostics n.derived)
      ∙ ap (λ d. record n { derived = d }) (ready_lem n.base _))
