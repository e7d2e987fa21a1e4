-- ===== src/Nodes/Setup/Leads.antt =====
-- What the calls of Nodes/Setup lead to: a logic of the calls that go on.
use robot_framework_ros.Prelude.{
  Bool-cases, Option-cases, ◌≡◌, inl, inr, Bool, true, Option, some, arith,
}
use mathlib.Core.Path.{subst}
use robot_framework_ros.Nodes.Setup.{
  Outcome, crashed, failed, done, Setup, ◌>>=◌, checked, unread, required, result,
}

module _ {N : Type 0} where
  -- The node of a call that went on.
  abbrev pub Holds : {A : Type 0} → (N → Type 0) → Outcome N A → Type 0
  Holds Q crashed = Unit
  Holds Q (failed n) = Unit
  Holds Q (done a n) = Q n

  -- From a node with P, if the call goes on then its node has Q.
  pub record Leads {A : Type 0} (P : N → Type 0) (m : Setup N A) (Q : N → Type 0) : Type 0 where
    pub leads : (n : N) → P n → Holds Q (m n)

  Holds-then :
      {A B : Type 0} {Q R : N → Type 0} (f : A → Setup N B) (r : Outcome N A)
      → Holds Q r
      → ((a : A) → Leads Q (f a) R)
      → Holds R (elim r [ crashed ↦ crashed | failed n' ↦ failed n' | done a n' ↦ f a n' ])
  Holds-then f crashed h k = tt
  Holds-then f (failed n) h k = tt
  Holds-then f (done a n) h k = (k a).leads n h

  -- One call after the other.
  infixr 4 ◌▷◌
  pub ◌▷◌ :
      {A B : Type 0} {P Q R : N → Type 0} {m : Setup N A} {f : A → Setup N B}
      → Leads P m Q
      → ((a : A) → Leads Q (f a) R)
      → Leads P (m >>= f) R
  unfolding ◌>>=◌
  ◌▷◌ {m = m} {f = f} h k = record { leads = λ n x. Holds-then f (m n) (h.leads n x) k }

  pub checked-Leads :
      {P Q : N → Type 0} (call : N → N × Bool)
      → ((n : N) → P n → (call n).1 ≡ true → Q (call n).0)
      → Leads P (checked call) Q
  unfolding checked
  checked-Leads call h = record {
    leads = λ n x. elim (Bool-cases (call n).1) [ inl e ↦ rw e (h n x e) | inr e ↦ rw e tt ];
  }

  pub unread-Leads :
      {P Q : N → Type 0} (call : N → N × Bool)
      → ((n : N) → P n → Q (call n).0)
      → Leads P (unread call) Q
  unfolding unread
  unread-Leads call h = record { leads = λ n x. h n x }

  pub required-Leads :
      {A : Type 0} {P : N → Type 0} (read : N → Option A) → Leads P (required read) P
  unfolding required
  required-Leads read = record {
    leads = λ n x. elim (Option-cases (read n)) [
      | inl e ↦ rw (e, required, Holds) tt
      | inr (a, e) ↦ rw (e, required, Holds) x
    ];
  }

  -- A call whose result is a success went on.
  pub result-Holds :
      {A : Type 0} (Q : N → Type 0) (r : Outcome N A) (n : N)
      → result r ≡ some (n, true)
      → Holds Q r
      → Q n
  unfolding result
  result-Holds Q crashed n e h = absurd (ground arith)
  result-Holds Q (failed m) n e h = absurd (ground arith)
  result-Holds Q (done a m) n e h = subst Q (ground arith) h
