-- ===== src/BaseNode/Run/Outbox.antt =====
-- The messages of a node that its own class publishes, in their order.
use robot_framework_ros.Prelude.{
  get_elem?, ℕ, zero, suc, ◌≡◌, refl, sym, ap, ◌∙◌, some, List, [], ◌∷◌, ◌++◌, arith,
}
use mathlib.Core.Path.{subst}
use mathlib.Core.List.{Mem, mem-append_left, append_assoc, append-nil}
use robot_framework_ros.Platform.{Platform}
use robot_framework_ros.BaseNode.State.{Derived, Output, sent, emit}
use robot_framework_ros.BaseNode.Run.Invariants.{IsUndisturbed}

abbrev pub All : {A : Type 0} → (A → Type 0) → List A → Type 0
All G [] = Unit
All G (x ∷ xs) = G x × All G xs

pub All-snoc :
    {A : Type 0} (G : A → Type 0) (xs : List A) (x : A) → All G xs → G x → All G (xs ++ (x ∷ []))
All-snoc G [] x h g = (g, tt)
All-snoc G (y ∷ ys) x h g = (h.0, All-snoc G ys x h.1 g)

pub All-get_elem :
    {A : Type 0} (P : A → Type 0) (xs : List A) (i : ℕ) (x : A)
    → All P xs
    → get_elem? xs i ≡ some x
    → P x
All-get_elem P [] i x h e = absurd (ground arith)
All-get_elem P (y ∷ ys) zero x h e = subst P (ground arith) h.0
All-get_elem P (y ∷ ys) (suc i) x h e = All-get_elem P ys i x h.1 e

module _ ⦃p : Platform⦄ {E : Type 0} where
  abbrev pub own : Output E → List E
  own (sent e) = e ∷ []
  own _ = []

  unfoldable pub messages : List (Output E) → List E
  messages [] = []
  messages (o ∷ os) = own o ++ messages os

  pub messages-snoc :
      (os : List (Output E)) (o : Output E) → messages (os ++ (o ∷ [])) ≡ messages os ++ own o
  unfolding messages
  messages-snoc [] o = append-nil (own o)
  messages-snoc (x ∷ os) o =
      ap (λ r. own x ++ r) (messages-snoc os o) ∙ sym (append_assoc (own x) (messages os) (own o))

  -- An output of the base class is no message.
  pub messages-base :
      (os : List (Output E)) (o : Output E) → own o ≡ [] → messages (os ++ (o ∷ [])) ≡ messages os
  messages-base os o h =
      messages-snoc os o ∙ ap (λ r. messages os ++ r) h ∙ append-nil (messages os)

  module _ {U : Type 0} where
    abbrev pub AllSent : (E → Type 0) → Derived U E → Type 0
    AllSent G d = All G (messages d.outbox)

    pub emit-AllSent :
        (G : E → Type 0) (d : Derived U E) (e : E) → AllSent G d → G e → AllSent G (emit (sent e) d)
    emit-AllSent G d e h g =
        rw (messages-snoc d.outbox (sent e)) (All-snoc G (messages d.outbox) e h g)

    -- A property of the messages and the members is none of the base class's business.
    pub messages-IsUndisturbed :
        (I : U → List E → Type 0) → IsUndisturbed (λ (d : Derived U E). I d.own (messages d.outbox))
    messages-IsUndisturbed I = record {
      read = λ d k h. h;
      heartbeat = λ d msg h. rw (messages-base d.outbox _ refl) h;
      diagnostic = λ d msg h. rw (messages-base d.outbox _ refl) h;
      ready_to_arm = λ d msg h. rw (messages-base d.outbox _ refl) h;
    }

module _ ⦃p : Platform⦄ {U E : Type 0} where
  -- The node has published the message.
  abbrev pub HasPublished : Output E → Derived U E → Type 0
  HasPublished o d = Mem o d.outbox

  pub HasPublished-IsUndisturbed : (o : Output E) → IsUndisturbed (HasPublished o)
  HasPublished-IsUndisturbed o = record {
    read = λ d k h. h;
    heartbeat = λ d msg h. mem-append_left _ h;
    diagnostic = λ d msg h. mem-append_left _ h;
    ready_to_arm = λ d msg h. mem-append_left _ h;
  }
