-- ===== src/Nodes/Setup.antt =====
-- The `init` methods of the nodes of Systems/ as calls one after the other: each `if (status ==
-- false) return false` is the result `failed` with the node as it is then, and an exception that
-- nothing catches is `crashed`.
pub mod Leads
pub mod Ready
pub mod Silent
pub mod Done
use robot_framework_ros.Prelude.{if◌then◌else◌, Text, Bool, true, false, Option, none, some, ◌++◌}
use robot_framework_ros.Platform.{Platform}
use robot_framework_ros.BaseNode.State.{Derived, Node, emit, advertised, subscribed}
use robot_framework_ros.BaseNode.Names.{get_config_path}
use robot_framework_ros.BaseNode.Init.{base_init}
use robot_framework_ros.BaseNode.Lifecycle.{init_base_node_diagnostics}
use robot_framework_ros.Nodes.Process.{Process, Members, with_process}

pub data Outcome (N A : Type 0) : Type 0 where
  crashed : Outcome N A
  failed : N → Outcome N A
  done : A → N → Outcome N A

abbrev pub Setup : Type 0 → Type 0 → Type 0
Setup N A = N → Outcome N A

module _ {N : Type 0} where
  infixl 5 ◌>>=◌ ◌>>◌
  unfoldable pub ◌>>=◌ : {A B : Type 0} → Setup N A → (A → Setup N B) → Setup N B
  ◌>>=◌ m f n = elim (m n) [ crashed ↦ crashed | failed n' ↦ failed n' | done a n' ↦ f a n' ]

  abbrev pub ◌>>◌ : {A B : Type 0} → Setup N A → Setup N B → Setup N B
  m >> k = m >>= λ _. k

  unfoldable pub gets : {A : Type 0} → (N → A) → Setup N A
  gets f n = done (f n) n

  -- `if (call() == false) return false;`
  unfoldable pub checked : (N → N × Bool) → Setup N (Unit {0})
  checked call n = let (n', status) = call n in if status then done tt n' else failed n'

  -- A call whose result nobody reads.
  unfoldable pub unread : (N → N × Bool) → Setup N (Unit {0})
  unread call n = done tt (call n).0

  -- `if (n->getParam(name, value) == false) return false;`
  unfoldable pub required : {A : Type 0} → (N → Option A) → Setup N A
  required read n = elim (read n) [ none ↦ failed n | some a ↦ done a n ]

  -- A call on a local variable.
  unfoldable pub passed : {A : Type 0} → A × Bool → Setup N A
  passed (a, status) n = if status then done a n else failed n

  -- What `main` sees of it.
  unfoldable pub result : {A : Type 0} → Outcome N A → Option (N × Bool)
  result crashed = none
  result (failed n) = some (n, false)
  result (done a n) = some (n, true)

module _ ⦃p : Platform⦄ {U E : Type 0} where
  unfoldable pub change : (Derived U E → Derived U E) → Setup (Node U E) (Unit {0})
  change f n = done tt (record n { derived = f n.derived })

  -- `get_robotnamespace() + topic`.
  unfoldable pub advertise : Text → Text → Setup (Node U E) (Unit {0})
  advertise datatype topic n = done tt (record n {
    derived = emit (advertised datatype (n.base.robot_namespace ++ topic)) n.derived;
  })

  unfoldable pub subscribe : Text → Setup (Node U E) (Unit {0})
  subscribe topic n =
      done tt (record n { derived = emit (subscribed (n.base.robot_namespace ++ topic)) n.derived })

  -- A parameter in the namespace of the node.
  unfoldable pub own_text : Text → Setup (Node U E) Text
  own_text name = required (λ n. p.param_text (n.base.node_name ++ name))

  unfoldable pub call_base_init : Setup (Node U E) (Unit {0})
  call_base_init = checked base_init

  unfoldable pub config_path : (Text × Text × Text) → Setup (Node U E) Text
  config_path (system, subsystem, process) n =
      elim (get_config_path n.base system subsystem process) [
        | none ↦ crashed
        | some path ↦ done path n
      ]

module _ ⦃p : Platform⦄ {P M E : Type 0} where
  unfoldable pub call_process : (P → P × Bool) → Setup (Node (Members P M) E) (Unit {0})
  call_process call = checked (λ n.
      let (x, status) = call n.derived.own.process in
      (record n { derived = with_process x n.derived }, status))

  unfoldable pub call_diagnostics : Process P → Setup (Node (Members P M) E) (Unit {0})
  call_diagnostics q = checked (λ n.
      let x = n.derived.own.process in
      let (b, status) =
        init_base_node_diagnostics n.base (q.system_id x) (q.subsystem_id x) (q.process_id x) in
      (record n { base = b }, status))

module _ ⦃p : Platform⦄ {N : Type 0} where
  unfoldable pub text_at : Text → Setup N Text
  text_at name = required (λ n. p.param_text name)

  unfoldable pub real_at : Text → Setup N p.Real
  real_at name = required (λ n. p.param_real name)
