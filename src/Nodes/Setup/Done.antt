-- ===== src/Nodes/Setup/Done.antt =====
-- What a successful call says of the calls that it is made of.
use robot_framework_ros.Prelude.{Text, ◌≡◌, ◌↔◌, Bool, true, false, Option, some, arith}
use robot_framework_ros.Platform.{Platform}
use robot_framework_ros.BaseNode.State.{Node}
use robot_framework_ros.BaseNode.Names.{get_config_path}
use robot_framework_ros.Nodes.Process.{Members, with_process}
use robot_framework_ros.Nodes.Setup.{
  done, Setup, ◌>>=◌, required, real_at, passed, config_path, call_process, checked,
}

module _ {N : Type 0} where
  required_bind-done :
      {A B : Type 0} (read : N → Option A) (f : A → Setup N B) (n n' : N) (b : B)
      → ((required read >>= f) n ≡ done b n') ↔ ((a : A) × (read n ≡ some a) × (f a n ≡ done b n'))
  unfolding ◌>>=◌ required
  required_bind-done read f n n' b = ground arith

  pub passed_bind-done :
      {A B : Type 0} (r : A × Bool) (f : A → Setup N B) (n n' : N) (b : B)
      → ((passed r >>= f) n ≡ done b n') ↔ ((r.1 ≡ true) × (f r.0 n ≡ done b n'))
  unfolding ◌>>=◌ passed
  passed_bind-done (a, true) f n n' b = ground arith
  passed_bind-done (a, false) f n n' b = ground arith

module _ ⦃p : Platform⦄ {N : Type 0} where
  pub real_at-done :
      {B : Type 0} (name : Text) (f : p.Real → Setup N B) (n n' : N) (b : B)
      → ((real_at name >>= f) n ≡ done b n')
        ↔ ((a : p.Real) × (p.param_real name ≡ some a) × (f a n ≡ done b n'))
  unfolding real_at
  real_at-done name f n n' b = required_bind-done (λ n. p.param_real name) f n n' b

module _ ⦃p : Platform⦄ {U E : Type 0} where
  pub config_path-done :
      {B : Type 0} (s t x : Text) (f : Text → Setup (Node U E) B) (n n' : Node U E) (b : B)
      → ((config_path (s, t, x) >>= f) n ≡ done b n')
        ↔ ((path : Text) × (get_config_path n.base s t x ≡ some path) × (f path n ≡ done b n'))
  unfolding ◌>>=◌ config_path
  config_path-done s t x f n n' b = ground arith

module _ ⦃p : Platform⦄ {P M E : Type 0} where
  pub call_process-done :
      (call : P → P × Bool) (n n' : Node (Members P M) E)
      → (call_process call n ≡ done tt n') ↔ (
          ((call n.derived.own.process).1 ≡ true)
          × (n' ≡ record n { derived = with_process (call n.derived.own.process).0 n.derived }))
  unfolding call_process checked
  call_process-done call n n' = ground arith
