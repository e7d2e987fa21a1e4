-- ===== src/Nodes/Setup/Silent.antt =====
-- An `init` publishes nothing of its own class.
use robot_framework_ros.Prelude.{
  Bool-cases, Option-cases, Text, text, ℕ, ◌≡◌, refl, ◌∙◌, inl, inr, Bool, true, false, Option,
  List, ◌++◌,
}
use mathlib.Core.Path.{subst}
use robot_framework_ros.Platform.{Platform}
use robot_framework_ros.BaseNode.State.{
  set_ready_to_arm, Base, Derived, Node, advertised, logger_started, emit,
}
use robot_framework_ros.Messages.{state_initializing}
use robot_framework_ros.BaseNode.Names.{get_config_path, read_robotnamespace}
use robot_framework_ros.BaseNode.Init.{
  base_init, finish_init, advertise_all, logger_level, set_robotnamespace,
}
use robot_framework_ros.BaseNode.Lifecycle.{request_node_statechange}
use robot_framework_ros.BaseNode.Run.Outbox.{messages, messages-base}
use robot_framework_ros.BaseNode.Run.Invariants.{OfInit}
use robot_framework_ros.Nodes.Process.{Process, show_ready}
use robot_framework_ros.Nodes.Setup.{
  Outcome, crashed, failed, done, Setup, ◌>>=◌, gets, checked, required, result, change, own_text,
  text_at, real_at, passed, advertise, subscribe, call_base_init, config_path, call_process,
  call_diagnostics,
}

module _ ⦃p : Platform⦄ {U E : Type 0} where
  abbrev sent_by : Node U E → List E
  sent_by n = messages n.derived.outbox

  abbrev pub Same : {A : Type 0} → List E → Outcome (Node U E) A → Type 0
  Same es crashed = Unit
  Same es (failed n) = sent_by n ≡ es
  Same es (done a n) = sent_by n ≡ es

  -- The call, however it ends, leaves the messages as they were.
  pub record IsSilent {A : Type 0} (m : Setup (Node U E) A) : Type 0 where
    pub silent : (n : Node U E) → Same (sent_by n) (m n)

  Same-bind :
      {A B : Type 0} (es : List E) (f : A → Setup (Node U E) B) (r : Outcome (Node U E) A)
      → Same es r
      → ((a : A) → IsSilent (f a))
      → Same es (elim r [ crashed ↦ crashed | failed n' ↦ failed n' | done a n' ↦ f a n' ])
  Same-bind es f crashed h k = tt
  Same-bind es f (failed n) h k = h
  Same-bind es f (done a n) h k = subst (λ x. Same x (f a n)) h ((k a).silent n)

  -- One call after the other.
  infixr 4 ◌▶◌
  pub ◌▶◌ :
      {A B : Type 0} {m : Setup (Node U E) A} {f : A → Setup (Node U E) B}
      → IsSilent m
      → ((a : A) → IsSilent (f a))
      → IsSilent (m >>= f)
  unfolding ◌>>=◌
  ◌▶◌ {m = m} {f = f} h k = record { silent = λ n. Same-bind (sent_by n) f (m n) (h.silent n) k }

  checked-IsSilent :
      (call : Node U E → Node U E × Bool)
      → ((n : Node U E) → sent_by (call n).0 ≡ sent_by n)
      → IsSilent (checked call)
  unfolding checked
  checked-IsSilent call h = record {
    silent = λ n. elim (Bool-cases (call n).1) [ inl e ↦ rw e (h n) | inr e ↦ rw e (h n) ];
  }

  required-IsSilent : {A : Type 0} (read : Node U E → Option A) → IsSilent (required read)
  unfolding required
  required-IsSilent read = record {
    silent = λ n. elim (Option-cases (read n)) [
      | inl e ↦ rw (e, required, Same) refl
      | inr (a, e) ↦ rw (e, required, Same) refl
    ];
  }

  pub own_text-IsSilent : (name : Text) → IsSilent (own_text name)
  unfolding own_text
  own_text-IsSilent name = required-IsSilent _

  pub text_at-IsSilent : (name : Text) → IsSilent (text_at name)
  unfolding text_at
  text_at-IsSilent name = required-IsSilent _

  pub real_at-IsSilent : (name : Text) → IsSilent (real_at name)
  unfolding real_at
  real_at-IsSilent name = required-IsSilent _

  pub passed-IsSilent : {A : Type 0} (a : A × Bool) → IsSilent (passed a)
  unfolding passed
  passed-IsSilent (a, true) = record { silent = λ n. refl }
  passed-IsSilent (a, false) = record { silent = λ n. refl }

  pub gets-IsSilent : {A : Type 0} (f : Node U E → A) → IsSilent (gets f)
  unfolding gets
  gets-IsSilent f = record { silent = λ n. refl }

  pub change-IsSilent :
      (f : Derived U E → Derived U E)
      → ((d : Derived U E) → messages (f d).outbox ≡ messages d.outbox)
      → IsSilent (change f)
  unfolding change
  change-IsSilent f h = record { silent = λ n. h n.derived }

  pub advertise-IsSilent : (datatype topic : Text) → IsSilent (advertise datatype topic)
  unfolding advertise
  advertise-IsSilent datatype topic = record { silent = λ n. messages-base n.derived.outbox _ refl }

  pub subscribe-IsSilent : (topic : Text) → IsSilent (subscribe topic)
  unfolding subscribe
  subscribe-IsSilent topic = record { silent = λ n. messages-base n.derived.outbox _ refl }

  pub config_path-IsSilent : (ids : Text × Text × Text) → IsSilent (config_path ids)
  unfolding config_path
  config_path-IsSilent (system, subsystem, process) = record {
    silent = λ n. elim (Option-cases (get_config_path n.base system subsystem process)) [
      | inl e ↦ rw (e, config_path, Same) tt
      | inr (path, e) ↦ rw (e, config_path, Same) refl
    ];
  }

  advertise_all-messages :
      (b : Base) (d : Derived U E) → messages (advertise_all b d).outbox ≡ messages d.outbox
  unfolding advertise_all
  advertise_all-messages b d =
      let first = messages-base d.outbox (advertised _ (b.node_name ++ text "/heartbeat")) refl in
      let second =
        messages-base _ (advertised _ (b.node_name ++ text "/diagnostic")) refl ∙ first in
      elim (Bool-cases b.ready_to_arm_publish_enabled) [
        | inl e ↦ rw e (messages-base _ _ refl ∙ second)
        | inr e ↦ rw e second
      ]

  finish_init-messages :
      (level : ℕ) (b : Base) (d : Derived U E) → sent_by (finish_init level b d) ≡ messages d.outbox
  unfolding finish_init
  finish_init-messages level b d =
      advertise_all-messages (set_robotnamespace read_robotnamespace b)
        (emit (logger_started level b.node_name) d)
      ∙ messages-base d.outbox (logger_started level b.node_name) refl

  base_init-messages : (n : Node U E) → sent_by (base_init n).0 ≡ sent_by n
  unfolding base_init
  base_init-messages n =
      let (b, status) = request_node_statechange n.base state_initializing false in
      let named : Base = record b {
        node_namespace = p.this_node_namespace;
        node_name = p.this_node_name;
      } in
      elim (Bool-cases status) [
        | inl e ↦ elim (Option-cases (logger_level p.this_node_name)) [
          | inl f ↦ rw (e, f, base_init) refl
          | inr (level, f) ↦ rw (e, f, base_init) (finish_init-messages level named n.derived)
        ]
        | inr e ↦ rw (e, base_init) refl
      ]

  pub call_base_init-IsSilent : IsSilent (call_base_init {U = U} {E = E})
  unfolding call_base_init
  call_base_init-IsSilent = checked-IsSilent base_init base_init-messages

  pub result-OfInit :
      {A : Type 0} (G : List E → Type 0) (r : Outcome (Node U E) A) (es : List E)
      → Same es r
      → G es
      → OfInit (λ d. G (messages d.outbox)) (result r)
  unfolding result
  result-OfInit G crashed es h g = tt
  result-OfInit G (failed n) es h g = rw h g
  result-OfInit G (done a n) es h g = rw h g

module _ ⦃p : Platform⦄ {P M E : Type 0} where
  pub call_process-IsSilent :
      (call : P → P × Bool) → IsSilent (call_process {P = P} {M = M} {E = E} call)
  unfolding call_process
  call_process-IsSilent call = checked-IsSilent _ (λ n. refl)

  pub call_diagnostics-IsSilent :
      (q : Process P) → IsSilent (call_diagnostics {P = P} {M = M} {E = E} q)
  unfolding call_diagnostics
  call_diagnostics-IsSilent q = checked-IsSilent _ (λ n. refl)

  pub show_ready-IsSilent :
      (q : Process P) → IsSilent (change (show_ready {P = P} {M = M} {E = E} q))
  unfolding set_ready_to_arm
  show_ready-IsSilent q = change-IsSilent _ (λ d. refl)
