-- ===== src/Monitor/Robot/Diagnosed.antt =====
-- What the diagnostic window can show of a robot.
use robot_framework_ros.Prelude.{
  ◌==◌, if◌then◌else◌, ==_iff, Bool-cases, Option-cases, get_elem?, Text, text_eq, text_eq_iff, put,
  put-all, ℕ, zero, suc, ◌≡◌, ap, ◌∙◌, ◌⊎◌, inl, inr, Bool, true, false, ◌&&◌, none, some, List, [],
  ◌∷◌, arith,
}
use mathlib.Core.Path.{subst}
use mathlib.Core.List.{Mem, mem-cons_self, mem-cons_of_mem}
use robot_framework_ros.Core.{to_byte}
use robot_framework_ros.Platform.{Platform}
use robot_framework_ros.Messages.{Diagnostic}
use robot_framework_ros.BaseNode.State.{Node, Methods, Output, diagnostic_sent, heartbeat_sent}
use robot_framework_ros.BaseNode.Run.{main_loop}
use robot_framework_ros.BaseNode.Run.Outbox.{HasPublished, HasPublished-IsUndisturbed}
use robot_framework_ros.BaseNode.Run.Invariants.{IsKept, main_loop-kept}
use robot_framework_ros.Monitor.Diagnostic.{
  DiagnosticWindow, new_diagnostic_msg, update_diagnostics,
}
use robot_framework_ros.Monitor.Diagnostic.Messages.{
  entry_of, diagnostic_of, new_diagnostic_msg-diagnostic_of, update_diagnostics-diagnostic_of,
}
use robot_framework_ros.Monitor.Robot.{
  hear_diagnostic, Robot, Step, runs, arrives, watches, presses, Reach, here, next,
}

get_elem-Mem : {A : Type 0} (xs : List A) (i : ℕ) (x : A) → get_elem? xs i ≡ some x → Mem x xs
get_elem-Mem [] i x e = absurd (ground arith)
get_elem-Mem (y ∷ ys) zero x e = subst (λ z. Mem z (y ∷ ys)) (ground arith) mem-cons_self
get_elem-Mem (y ∷ ys) (suc i) x e = mem-cons_of_mem y (get_elem-Mem ys i x e)

module _ ⦃p : Platform⦄ where
  abbrev pub unknown : Diagnostic → Diagnostic
  unknown msg = record msg { level = to_byte p.level_unknown }

  aged :
      (late : Bool) (x y msg : Diagnostic)
      → x ≡ (if late then unknown y else y)
      → (y ≡ msg) ⊎ (y ≡ unknown msg)
      → (x ≡ msg) ⊎ (x ≡ unknown msg)
  aged true x y msg e (inl f) = inr (e ∙ ap unknown f)
  aged true x y msg e (inr f) = inr (e ∙ ap unknown f)
  aged false x y msg e (inl f) = inl (e ∙ f)
  aged false x y msg e (inr f) = inr (e ∙ f)

module _ ⦃p : Platform⦄ {U E : Type 0} where
  -- A diagnostic that one of the nodes has published under that name and of that type, as it was
  -- published or with the level UNKNOWN.
  abbrev pub IsGenuine : (ℕ → Node U E) → Text → ℕ → Diagnostic → Type 0
  IsGenuine nodes name kind x =
      (i : ℕ) × (msg : Diagnostic) × HasPublished (diagnostic_sent msg) (nodes i).derived
      × (msg.node_name ≡ name)
      × (msg.diagnostic_type ≡ kind)
      × ((x ≡ msg) ⊎ (x ≡ unknown msg))

  abbrev pub AllGenuine : (ℕ → Node U E) → DiagnosticWindow → Type 0
  AllGenuine nodes w =
      (name : Text) (kind : ℕ) (x : Diagnostic)
      → diagnostic_of name kind w ≡ some x
      → IsGenuine nodes name kind x

  -- Nodes that publish more.
  more-AllGenuine :
      (nodes nodes' : ℕ → Node U E) (w : DiagnosticWindow)
      → ((i : ℕ) (o : Output E)
          → HasPublished o (nodes i).derived
          → HasPublished o (nodes' i).derived)
      → AllGenuine nodes w
      → AllGenuine nodes' w
  more-AllGenuine nodes nodes' w more h name kind x e =
      let (i, msg, published, named, typed, same) = h name kind x e in
      (i, msg, more i (diagnostic_sent msg) published, named, typed, same)

  message-AllGenuine :
      (nodes : ℕ → Node U E) (i : ℕ) (msg : Diagnostic) (w : DiagnosticWindow)
      → HasPublished (diagnostic_sent msg) (nodes i).derived
      → AllGenuine nodes w
      → AllGenuine nodes (new_diagnostic_msg msg w)
  message-AllGenuine nodes i msg w published h name kind x e =
      let entry = new_diagnostic_msg-diagnostic_of msg name kind w in
      elim (Bool-cases (text_eq msg.node_name name && (msg.diagnostic_type == kind))) [
        | inl same ↦ (
          i,
          msg,
          published,
          (text_eq_iff msg.node_name name).0 (ground (arith, same)),
          (==_iff msg.diagnostic_type kind).0 (ground (arith, same)),
          inl (ground (arith, entry, same, e)),
        )
        | inr other ↦ h name kind x (ground (arith, entry, other, e))
      ]

  hear-AllGenuine :
      (nodes : ℕ → Node U E) (i : ℕ) (o : Output E) (w : DiagnosticWindow)
      → HasPublished o (nodes i).derived
      → AllGenuine nodes w
      → AllGenuine nodes (hear_diagnostic o w)
  hear-AllGenuine nodes i (diagnostic_sent msg) w published h =
      message-AllGenuine nodes i msg w published h
  hear-AllGenuine nodes i (heartbeat_sent msg) w published h = h
  hear-AllGenuine nodes i _ w published h = h

  update-AllGenuine :
      (nodes : ℕ → Node U E) (t : p.Real) (w : DiagnosticWindow)
      → AllGenuine nodes w
      → AllGenuine nodes (update_diagnostics t w)
  update-AllGenuine nodes t w h name kind x e =
      let entry = update_diagnostics-diagnostic_of t name kind w in
      elim (Option-cases (entry_of name kind w.monitors)) [
        | inl f ↦ absurd (ground (arith, entry, e, f))
        | inr (d, f) ↦
            let (i, msg, published, named, typed, same) =
              h name kind d.node_diagnostic (ground (arith, f)) in
            let late = p.less (p.decimal 50 1) (p.sub t d.last_update_sec) in
            let now : x ≡ (if late then unknown d.node_diagnostic else d.node_diagnostic) =
              ground (arith, entry, e, f) in
            (i, msg, published, named, typed, aged late x d.node_diagnostic msg now same)
      ]

  module _ (m : ℕ → Methods U E)
      (kept : (i : ℕ) (o : Output E) → IsKept (HasPublished o) (m i)) where
    Step-AllGenuine :
        {r s : Robot U E}
        → Step m r s
        → AllGenuine r.nodes r.diagnostics
        → AllGenuine s.nodes s.diagnostics
    Step-AllGenuine (runs r i) h =
        let n = (main_loop 1 (m i) (r.nodes i)).0 in
        more-AllGenuine r.nodes (put i n r.nodes) r.diagnostics
          (put-all
            (λ j x. (o : Output E) → HasPublished o (r.nodes j).derived → HasPublished o x.derived)
            i n r.nodes
            (λ o g.
              main_loop-kept (HasPublished o) (HasPublished-IsUndisturbed o) (m i) (kept i o) 1
                (r.nodes i) g)
            (λ j o g. g))
          h
    Step-AllGenuine (arrives r i j o e) h =
        hear-AllGenuine r.nodes i o r.diagnostics (get_elem-Mem _ j o e) h
    Step-AllGenuine (watches r t) h = update-AllGenuine r.nodes t r.diagnostics h
    Step-AllGenuine (presses r key) h = h

    Reach-AllGenuine :
        {r s : Robot U E}
        → AllGenuine r.nodes r.diagnostics
        → Reach m r s
        → AllGenuine s.nodes s.diagnostics
    Reach-AllGenuine h here = h
    Reach-AllGenuine h (next path step) = Step-AllGenuine step (Reach-AllGenuine h path)

    -- In any interleaving of the main loops of any number of nodes, the arrivals of their messages, in
    -- any order and with losses, and the updates and keys of the windows, from a diagnostic window
    -- that was empty: what the window has for a name and a type is a diagnostic that one of the nodes
    -- has published under that name and of that type, as it was published or with the level UNKNOWN.
    -- This needs that the virtual methods and the callbacks take nothing back that was published.
    pub Reach-IsGenuine :
        (r s : Robot U E)
        → ((name : Text) (kind : ℕ) → diagnostic_of name kind r.diagnostics ≡ none)
        → Reach m r s
        → (name : Text) (kind : ℕ) (x : Diagnostic) → diagnostic_of name kind s.diagnostics ≡ some x
        → IsGenuine s.nodes name kind x
    Reach-IsGenuine r s empty path =
        Reach-AllGenuine (λ name kind x e. absurd (ground (arith, e, empty name kind))) path
