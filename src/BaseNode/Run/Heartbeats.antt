-- ===== src/BaseNode/Run/Heartbeats.antt =====
-- A node that is served says so.
use robot_framework_ros.Prelude.{ℕ, ◌+◌, ◌≤◌, ◌<◌, ◌≡◌, refl, true, arith}
use mathlib.Core.Path.{subst}
use mathlib.Core.List.{mem-append_right, mem-cons_self}
use robot_framework_ros.Platform.{Platform}
use robot_framework_ros.BaseNode.State.{
  Base, Derived, Node, Methods, Output, loop_10hz, heartbeat_sent, emit, tick,
}
use robot_framework_ros.BaseNode.Loops.{base_run_10hz, beat, run_loop, update}
use robot_framework_ros.BaseNode.Loops.Schedule.{Frame}
use robot_framework_ros.BaseNode.Loops.Serving.{IsDueBetween, KeepsTime, running}
use robot_framework_ros.BaseNode.Loops.Reached.{update-reached}
use robot_framework_ros.BaseNode.Run.Invariants.{IsUndisturbed, IsKept}
use robot_framework_ros.BaseNode.Run.Outbox.{HasPublished, HasPublished-IsUndisturbed}

module _ ⦃p : Platform⦄ {U E : Type 0} where
  -- A heartbeat of the node as it is in an update, with the stamp of a reading from the r-th on and
  -- before the s-th.
  abbrev pub HasBeaten : ℕ → ℕ → Base → Derived U E → Type 0
  HasBeaten r s b d =
      (k : ℕ) × (r ≤ k) × (k < s) × HasPublished (heartbeat_sent (beat (running b) k)) d

  HasBeaten-IsUndisturbed : (r s : ℕ) (b : Base) → IsUndisturbed (HasBeaten r s b)
  HasBeaten-IsUndisturbed r s b = record {
    read = λ d j h. h;
    heartbeat = λ d msg (k, late, soon, h).
        (k, late, soon, (HasPublished-IsUndisturbed _).heartbeat d msg h);
    diagnostic = λ d msg (k, late, soon, h).
        (k, late, soon, (HasPublished-IsUndisturbed _).diagnostic d msg h);
    ready_to_arm = λ d msg (k, late, soon, h).
        (k, late, soon, (HasPublished-IsUndisturbed _).ready_to_arm d msg h);
  }

module _ ⦃p : Platform⦄ {U E : Type 0} (m : Methods U E)
    (kept : (o : Output E) → IsKept (HasPublished o) m) where
  HasBeaten-IsKept : (r s : ℕ) (b : Base) → IsKept (HasBeaten r s b) m
  HasBeaten-IsKept r s b = record {
    run_100hz = λ c d (k, late, soon, h). (k, late, soon, (kept _).run_100hz c d h);
    run_10hz = λ c d (k, late, soon, h). (k, late, soon, (kept _).run_10hz c d h);
    run_1hz = λ c d (k, late, soon, h). (k, late, soon, (kept _).run_1hz c d h);
    run_01hz = λ c d (k, late, soon, h). (k, late, soon, (kept _).run_01hz c d h);
    run_001hz = λ c d (k, late, soon, h). (k, late, soon, (kept _).run_001hz c d h);
    run_loop1 = λ c d (k, late, soon, h). (k, late, soon, (kept _).run_loop1 c d h);
    run_loop2 = λ c d (k, late, soon, h). (k, late, soon, (kept _).run_loop2 c d h);
    run_loop3 = λ c d (k, late, soon, h). (k, late, soon, (kept _).run_loop3 c d h);
    spin_once = λ c d (k, late, soon, h). (k, late, soon, (kept _).spin_once c d h);
  }

  same_beat : (b c : Base) (k : ℕ) → Frame b c → beat c k ≡ beat b k
  same_beat b c k f = ground (arith, f.name, f.state)

  run_10hz-HasBeaten :
      (s : ℕ) (b : Base) (x : Node U E)
      → KeepsTime m
      → (r : ℕ) → Frame (running b) x.base
      → r ≤ x.derived.reads
      → (run_loop loop_10hz m x).0.derived.reads < s
      → HasBeaten r s b (run_loop loop_10hz m x).0.derived
  unfolding run_loop base_run_10hz
  run_10hz-HasBeaten s b x later r f late soon =
      let k = x.derived.reads in
      let past =
        (later (k + 1)).run_10hz x.base (emit (heartbeat_sent (beat x.base k)) (tick x.derived))
          (omega arith) in
      (
        k,
        late,
        omega (arith, past, soon),
        subst (λ msg. HasPublished (heartbeat_sent msg) (run_loop loop_10hz m x).0.derived)
            (same_beat (running b) x.base k f)
            ((kept _).run_10hz x.base _ (mem-append_right x.derived.outbox mem-cons_self)),
      )

  -- A node that is served is not silent: after an `update` that returns true, and during which the
  -- time of the 10 Hz loop has come by every reading of the clock, the node has published a
  -- heartbeat with its name, the state RUNNING and the time of a reading of the clock during the
  -- update. This needs that the virtual methods and the callbacks take back nothing published and
  -- do not turn the clock back.
  pub update-HasBeaten :
      (n : Node U E)
      → KeepsTime m
      → (update m n).1 ≡ true
      → IsDueBetween n.derived.reads (update m n).0.derived.reads loop_10hz n.base
      → HasBeaten n.derived.reads (update m n).0.derived.reads n.base (update m n).0.derived
  update-HasBeaten n later ok due =
      let r = n.derived.reads in
      let s = (update m n).0.derived.reads in
      update-reached m later (HasBeaten r s n.base) n loop_10hz (HasBeaten-IsUndisturbed r s n.base)
        (HasBeaten-IsKept r s n.base)
        (λ x f from upto. run_10hz-HasBeaten s n.base x later r f from upto) ok refl due
