-- ===== src/Monitor/Robot/Shown.antt =====
-- What the node window can show of a robot.
use robot_framework_ros.Prelude.{
  Bool-cases, Option-cases, Text, text_eq, text_eq_iff, put-all, ℕ, ◌≡◌, sym, ap, ◌∙◌, ◌⊎◌, inl,
  inr, Option, none, some, arith,
}
use mathlib.Core.Path.{subst, fun_ext}
use robot_framework_ros.Platform.{Platform}
use robot_framework_ros.Messages.{
  Heartbeat, ReadyToArm, state_unknown, state_starting, state_running,
}
use robot_framework_ros.BaseNode.State.{
  Methods, Output, advertised, heartbeat_sent, ready_to_arm_sent,
}
use robot_framework_ros.BaseNode.Run.{main_loop}
use robot_framework_ros.BaseNode.Run.Invariants.{IsKept}
use robot_framework_ros.BaseNode.Run.Outbox.{All-get_elem}
use robot_framework_ros.BaseNode.Run.Published.{IsProper, AllProper, main_loop-IsNamed}
use robot_framework_ros.Monitor.NodeInfo.{NodeInfo, new_key_event}
use robot_framework_ros.Monitor.NodeInfo.View.{
  Entry, change, heard, told_ready, aged, known, known-heartbeat, known-ready_to_arm, known-update,
  View, key-view,
}
use robot_framework_ros.Monitor.Robot.{
  hear, Robot, Step, runs, arrives, watches, presses, Reach, here, next,
}

module _ ⦃p : Platform⦄ (name : ℕ → Text) where
  -- An entry that a node of the robot can have.
  abbrev pub IsPossible : Text → Entry → Type 0
  IsPossible x e =
      ((e.state.state ≡ state_unknown)
        ⊎ (e.state.state ≡ state_starting)
        ⊎ (e.state.state ≡ state_running))
      × ((i : ℕ) × (name i ≡ x))

  abbrev pub IsTrue : (Text → Option Entry) → Type 0
  IsTrue v = (x : Text) (e : Entry) → v x ≡ some e → IsPossible x e

  heard-IsTrue :
      (i : ℕ) (msg : Heartbeat) (t : p.Real) (v : Text → Option Entry)
      → msg.node_name ≡ name i
      → msg.node_state.state ≡ state_running
      → IsTrue v
      → IsTrue (change msg.node_name (heard msg t) v)
  heard-IsTrue i msg t v n s h x e f = elim (Bool-cases (text_eq msg.node_name x)) [
    | inl same ↦
        let place : name i ≡ x = sym n ∙ (text_eq_iff msg.node_name x).0 same in
        elim (Option-cases (v x)) [
          | inl new ↦ (inr (inl (ground arith)), (i, place))
          | inr (old, g) ↦ (inr (inr (ground arith)), (i, place))
        ]
    | inr other ↦ h x e (ground arith)
  ]

  told_ready-IsTrue :
      (i : ℕ) (msg : ReadyToArm) (t : p.Real) (v : Text → Option Entry)
      → msg.node_name ≡ name i
      → IsTrue v
      → IsTrue (change msg.node_name (told_ready msg t) v)
  told_ready-IsTrue i msg t v n h x e f = elim (Bool-cases (text_eq msg.node_name x)) [
    | inl same ↦
        let place : name i ≡ x = sym n ∙ (text_eq_iff msg.node_name x).0 same in
        elim (Option-cases (v x)) [
          | inl new ↦ (inr (inl (ground arith)), (i, place))
          | inr (old, g) ↦
              let was = (h x old g).0 in
              let kept : e.state ≡ old.state = ground arith in (rw kept was, (i, place))
        ]
    | inr other ↦ h x e (ground arith)
  ]

  aged-IsTrue : (t : p.Real) (v : Text → Option Entry) → IsTrue v → IsTrue (λ x. aged t (v x))
  aged-IsTrue t v h x e f = elim (Option-cases (v x)) [
    | inl nothing ↦ absurd (ground arith)
    | inr (old, g) ↦
        let (was, place) = h x old g in
        elim (Bool-cases (p.less (p.decimal 50 1) (p.sub t old.last_heard))) [
          | inl late ↦ (inl (ground arith), place)
          | inr early ↦ let kept : e.state ≡ old.state = ground arith in (rw kept was, place)
        ]
  ]

  hear-IsTrue :
      {E : Type 0} (i : ℕ) (o : Output E) (w : NodeInfo)
      → IsProper (name i) o
      → IsTrue (known w)
      → IsTrue (known (hear o w))
  hear-IsTrue i (heartbeat_sent msg) w h k =
      subst IsTrue (sym (fun_ext (known-heartbeat msg w)))
        (heard-IsTrue i msg w.current_time (known w) h.0 h.1 k)
  hear-IsTrue i (ready_to_arm_sent msg) w h k =
      subst IsTrue (sym (fun_ext (known-ready_to_arm msg w)))
        (told_ready-IsTrue i msg w.current_time (known w) h k)
  hear-IsTrue i (advertised datatype topic) w h k = k
  hear-IsTrue i _ w h k = k

  key-IsTrue : (key : ℕ) (w : NodeInfo) → IsTrue (known w) → IsTrue (known (new_key_event key w).0)
  key-IsTrue key w h = subst IsTrue (sym (ap (λ (v : View). v.1) (key-view key w))) h

  module _ {U E : Type 0} (m : ℕ → Methods U E)
      (kept : (i : ℕ) → IsKept (AllProper (name i)) (m i)) where
    -- Each node has its name and has published nothing out of place, and the window is true.
    pub record IsSound (r : Robot U E) : Type 0 where
      pub named : (i : ℕ) → (r.nodes i).base.node_name ≡ name i
      pub proper : (i : ℕ) → AllProper (name i) (r.nodes i).derived
      pub true_window : IsTrue (known r.window)

    Step-IsSound : {r s : Robot U E} → Step m r s → IsSound r → IsSound s
    Step-IsSound (runs r i) h =
        let both =
          put-all (λ j n. (n.base.node_name ≡ name j) × AllProper (name j) n.derived) i
            (main_loop 1 (m i) (r.nodes i)).0 r.nodes
            (main_loop-IsNamed (name i) (m i) (kept i) 1 (r.nodes i) (h.named i, h.proper i))
            (λ j. (h.named j, h.proper j)) in
        record { named = λ j. (both j).0; proper = λ j. (both j).1; true_window = h.true_window }
    Step-IsSound (arrives r i j o e) h = record {
      named = h.named;
      proper = h.proper;
      true_window =
          hear-IsTrue i o r.window (All-get_elem (IsProper (name i)) _ _ o (h.proper i) e)
            h.true_window;
    }
    Step-IsSound (watches r t) h = record {
      named = h.named;
      proper = h.proper;
      true_window =
          subst IsTrue (sym (fun_ext (known-update t r.window)))
            (aged-IsTrue t (known r.window) h.true_window);
    }
    Step-IsSound (presses r key) h = record {
      named = h.named;
      proper = h.proper;
      true_window = key-IsTrue key r.window h.true_window;
    }

    Reach-IsSound : {r s : Robot U E} → IsSound r → Reach m r s → IsSound s
    Reach-IsSound h here = h
    Reach-IsSound h (next path step) = Step-IsSound step (Reach-IsSound h path)

    -- In any interleaving of the main loops of any number of nodes, the arrivals of their messages, in
    -- any order and with losses, and the updates and keys of a node window that knew no node: every
    -- name that the window knows is the name of one of the nodes, and it shows that node as STARTING,
    -- RUNNING or UNKNOWN. This needs that the nodes had published nothing out of place, and that the virtual methods and the
    -- callbacks publish none of the base class's messages out of place.
    pub Reach-IsPossible :
        (r s : Robot U E)
        → ((i : ℕ) → (r.nodes i).base.node_name ≡ name i)
        → ((i : ℕ) → AllProper (name i) (r.nodes i).derived)
        → ((x : Text) → known r.window x ≡ none)
        → Reach m r s
        → (x : Text) (e : Entry) → known s.window x ≡ some e
        → IsPossible x e
    Reach-IsPossible r s named proper empty path =
        let start : IsSound r = record {
          named = named;
          proper = proper;
          true_window = λ x e f. absurd (ground (arith, empty x));
        } in
        (Reach-IsSound start path).true_window
