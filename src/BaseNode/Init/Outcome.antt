-- ===== src/BaseNode/Init/Outcome.antt =====
-- What `base_init` leaves behind.
use robot_framework_ros.Prelude.{
  Bool-cases, Option-cases, Text, ℕ, ◌≡◌, refl, ◌≢◌, ◌↔◌, ◌⊎◌, inl, inr, true, false, none, arith,
}
use robot_framework_ros.Platform.{Platform}
use robot_framework_ros.Messages.{state_unknown, state_initializing}
use robot_framework_ros.BaseNode.State.{Base, UserLoop, Derived, Node}
use robot_framework_ros.BaseNode.Namespace.Laws.{IsNamespace, validate_robotnamespace-IsNamespace}
use robot_framework_ros.BaseNode.Names.{read_robotnamespace}
use robot_framework_ros.BaseNode.Lifecycle.{request_node_statechange, state_change_allowed}
use robot_framework_ros.BaseNode.Init.{base_init, finish_init, logger_level, load_rate, load_rates}

module _ ⦃p : Platform⦄ where
  -- An enabled loop is not faster than the maximum.
  abbrev pub IsLimited : p.Real → UserLoop → Type 0
  IsLimited max_rate u = u.enabled ≡ true → p.less max_rate u.rate ≡ false

  load_rate-IsLimited :
      (param : Text) (max_rate : p.Real) (u : UserLoop)
      → p.less max_rate max_rate ≡ false
      → IsLimited max_rate (load_rate param max_rate u)
  unfolding load_rate
  load_rate-IsLimited param max_rate u h = ground arith

  pub record IsInitialized (b : Base) : Type 0 where
    pub state : b.node_state.state ≡ state_initializing
    pub name : b.node_name ≡ p.this_node_name
    pub namespace : IsNamespace b.robot_namespace
    pub first : IsLimited b.max_rate b.user1
    pub second : IsLimited b.max_rate b.user2
    pub third : IsLimited b.max_rate b.user3

  request_ok :
      (b : Base)
      → (request_node_statechange b state_initializing false).1 ≡ true
      → let b' = (request_node_statechange b state_initializing false).0 in
        (b'.node_state.state ≡ state_initializing) × (b'.max_rate ≡ b.max_rate)
  unfolding request_node_statechange
  request_ok b h = ground arith

  module _ {U E : Type 0} where
    -- `base_init` succeeds exactly when the node is in the state UNKNOWN or INITIALIZING and its
    -- verbosity level is missing or one that the ladder knows.
    pub base_init_iff :
        (n : Node U E)
        → let s = n.base.node_state.state in
          ((base_init n).1 ≡ true) ↔ (
            ((s ≡ state_unknown) ⊎ (s ≡ state_initializing))
            × (logger_level p.this_node_name ≢ none))
    unfolding base_init request_node_statechange state_change_allowed
    base_init_iff n = (ground arith, ground arith)

    finish_init-IsInitialized :
        (level : ℕ) (b : Base) (d : Derived U E)
        → p.less b.max_rate b.max_rate ≡ false
        → b.node_state.state ≡ state_initializing
        → b.node_name ≡ p.this_node_name
        → IsInitialized (finish_init level b d).base
    unfolding finish_init load_rates
    finish_init-IsInitialized level b d h s e = record {
      state = s;
      name = e;
      namespace = validate_robotnamespace-IsNamespace read_robotnamespace;
      first = load_rate-IsLimited _ b.max_rate b.user1 h;
      second = load_rate-IsLimited _ b.max_rate b.user2 h;
      third = load_rate-IsLimited _ b.max_rate b.user3 h;
    }

    -- After a `base_init` that succeeds the node is INITIALIZING, has the name that ROS gave it and
    -- a normalised namespace, and no enabled user loop has a rate above the maximum (where the
    -- maximum is not above itself).
    pub base_init-IsInitialized :
        (n : Node U E)
        → p.less n.base.max_rate n.base.max_rate ≡ false
        → (base_init n).1 ≡ true
        → IsInitialized (base_init n).0.base
    unfolding base_init
    base_init-IsInitialized n h e =
        let r = request_node_statechange n.base state_initializing false in
        elim (Bool-cases r.1) [
          | inl ok ↦ elim (Option-cases (logger_level p.this_node_name)) [
            | inl l ↦ ground arith
            | inr (level, l) ↦
                let (state, max_rate) = request_ok n.base ok in
                rw (ok, l)
                  (finish_init-IsInitialized level
                    (record (r.0) {
                      node_namespace = p.this_node_namespace;
                      node_name = p.this_node_name;
                    })
                    n.derived (rw max_rate h) state refl)
          ]
          | inr refused ↦ ground arith
        ]
