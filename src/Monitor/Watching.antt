-- ===== src/Monitor/Watching.antt =====
-- A node and the system monitor together: what the windows have after the messages of the node's
-- 10 Hz and 1 Hz loops.
use robot_framework_ros.Prelude.{
  ◌==◌, if◌then◌else◌, length, Text, text_eq_refl, ℕ, ◌+◌, ◌≡◌, refl, ap, ◌∙◌, ◌≢◌, Bool, true,
  false, Option, none, some, List, [], ◌∷◌, ◌++◌, arith,
}
use mathlib.Core.List.{append_assoc}
use robot_framework_ros.Core.{DiagnosticMsg, ReadyToArmStatusMsg}
use robot_framework_ros.Platform.{Platform}
use robot_framework_ros.Translate.Infrastructure.{diagnostic_to_core, diagnostic_to_ros}
use robot_framework_ros.Translate.InfrastructureLaws.{IsByteDiagnostic, diagnostic_to_core-to_ros}
use robot_framework_ros.BaseNode.State.{
  emit, tick, heartbeat_sent, Derived, Node, Methods, Output, diagnostic_sent,
}
use robot_framework_ros.BaseNode.Loops.{base_run_1hz, base_run_10hz, beat, on_derived}
use robot_framework_ros.BaseNode.Loops.Publish.{
  diagnostic_messages, ready_messages, base_run_1hz_lem,
}
use robot_framework_ros.BaseNode.Run.Outbox.{All}
use robot_framework_ros.Messages.{Heartbeat, state_unknown}
use robot_framework_ros.Prelude.Table.{lookup, text_key}
use robot_framework_ros.Monitor.NodeInfo.{NodeInfo, new_heartbeat_msg, update_records}
use robot_framework_ros.Monitor.NodeInfo.Timeout.{state_in, heartbeat_then_update}
use robot_framework_ros.Monitor.Diagnostic.{DiagnosticWindow, new_diagnostic_msg}
use robot_framework_ros.Monitor.Diagnostic.Messages.{
  diagnostic_of, new_diagnostic_msg-diagnostic_of,
}

-- The last diagnostic of a type in a list, or the one from before.
abbrev pub latest : ℕ → List DiagnosticMsg → Option DiagnosticMsg → Option DiagnosticMsg
latest kind [] before = before
latest kind (x ∷ xs) before = latest kind xs (if x.diagnostic_type == kind then some x else before)

module _ ⦃p : Platform⦄ where
  -- What the window has for a node and a type, as the core message that it came from.
  abbrev pub core_of : Text → ℕ → DiagnosticWindow → Option DiagnosticMsg
  core_of name kind w = elim (diagnostic_of name kind w) [
    | none ↦ none
    | some msg ↦ some (diagnostic_to_core msg)
  ]

  message-core_of :
      (name : Text) (kind : ℕ) (t : p.Time) (x : DiagnosticMsg) (w : DiagnosticWindow)
      → IsByteDiagnostic x
      → core_of name kind
          (new_diagnostic_msg (record (diagnostic_to_ros x) { stamp = t; node_name = name }) w)
        ≡ (if x.diagnostic_type == kind then some x else core_of name kind w)
  unfolding diagnostic_to_ros diagnostic_to_core
  message-core_of name kind t x w h =
      let msg = record (diagnostic_to_ros x) { stamp = t; node_name = name } in
      ground (
        arith,
        new_diagnostic_msg-diagnostic_of msg name kind w,
        text_eq_refl name,
        diagnostic_to_core-to_ros x h,
      )

  module _ {E : Type 0} where
    -- The window after the callback of each message.
    abbrev pub hear : List (Output E) → DiagnosticWindow → DiagnosticWindow
    hear [] w = w
    hear (diagnostic_sent msg ∷ rest) w = hear rest (new_diagnostic_msg msg w)
    hear (_ ∷ rest) w = hear rest w

    -- With what comes after the diagnostics.
    hear-core_of :
        (name : Text) (kind reads : ℕ) (xs : List DiagnosticMsg) (rest : List (Output E))
        (w : DiagnosticWindow)
        → ((v : DiagnosticWindow) → hear rest v ≡ v)
        → All IsByteDiagnostic xs
        → core_of name kind (hear (diagnostic_messages name reads xs ++ rest) w)
          ≡ latest kind xs (core_of name kind w)
    unfolding diagnostic_messages
    hear-core_of name kind reads [] rest w quiet h = ap (core_of name kind) (quiet w)
    hear-core_of name kind reads (x ∷ xs) rest w quiet h =
        hear-core_of name kind (reads + 1) xs rest _ quiet h.1
        ∙ ap (latest kind xs) (message-core_of name kind (p.now reads) x w h.0)

  hear-ready_messages :
      (E : Type 0) (on : Bool) (name : Text) (reads : ℕ) (r : ReadyToArmStatusMsg)
      (w : DiagnosticWindow)
      → hear (ready_messages {E = E} on name reads r) w ≡ w
  unfolding ready_messages
  hear-ready_messages E false name reads r w = refl
  hear-ready_messages E true name reads r w = refl

  -- Before `run_1hz` the 1 Hz loop of a node publishes messages after which a diagnostic window that
  -- receives them has, for the node and any type, the last of the node's stored diagnostics of that
  -- type, or what it had before if there is none. This needs that the type, level and message of
  -- each stored diagnostic fit in a byte.
  pub base_run_1hz-core_of :
      {U E : Type 0} (m : Methods U E) (n : Node U E)
      → All IsByteDiagnostic n.derived.diagnostics
      → (d : Derived U E) × (published : List (Output E)) × (base_run_1hz m n
          ≡ on_derived m.run_1hz (record n { derived = d }))
        × (d.outbox ≡ n.derived.outbox ++ published)
        × ((kind : ℕ) (w : DiagnosticWindow)
            → core_of n.base.node_name kind (hear published w)
              ≡ latest kind n.derived.diagnostics (core_of n.base.node_name kind w))
  base_run_1hz-core_of {E = E} m n h =
      let name = n.base.node_name in
      let d = n.derived in
      let on = n.base.ready_to_arm_publish_enabled in
      let reads = d.reads + length d.diagnostics in
      let told : List (Output E) = diagnostic_messages name d.reads d.diagnostics in
      let ready : List (Output E) = ready_messages on name reads d.ready_to_arm in
      (
        _,
        told ++ ready,
        base_run_1hz_lem m n,
        append_assoc d.outbox told ready,
        λ kind w.
            hear-core_of name kind d.reads d.diagnostics ready w
              (hear-ready_messages E on name reads d.ready_to_arm) h,
      )

  -- The 10 Hz loop of a node that the node window knows publishes a heartbeat before `run_10hz`.
  -- When the window has received it and is updated at time t, it shows the state that the node was
  -- in when it published, if t is not more than five seconds after the update before, and UNKNOWN
  -- otherwise.
  pub base_run_10hz-state_in :
      {U E : Type 0} (m : Methods U E) (n : Node U E) (t : p.Real) (w : NodeInfo)
      → lookup n.base.node_name w.nodes ≢ none
      → (msg : Heartbeat) × (base_run_10hz m n
          ≡ on_derived m.run_10hz
              (record n { derived = emit (heartbeat_sent msg) (tick n.derived) }))
        × (state_in n.base.node_name (update_records t (new_heartbeat_msg msg w)) ≡ (
            if p.less (p.decimal 50 1) (p.sub t w.current_time)
            then some state_unknown
            else some n.base.node_state.state))
  unfolding base_run_10hz
  base_run_10hz-state_in m n t w known =
      let msg = beat n.base n.derived.reads in (msg, refl, (heartbeat_then_update t msg w known).1)
