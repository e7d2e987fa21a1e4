-- ===== src/BaseNode/Loops/Order.antt =====
-- The order of the loops, and what the loops leave of each other's timers.
use robot_framework_ros.Prelude.{ℕ, ◌≡◌, refl, ap, ◌∙◌, ◌≢◌, List, [], ◌∷◌, ◌++◌, arith}
use robot_framework_ros.Platform.{Platform}
use robot_framework_ros.BaseNode.State.{
  Node, Methods, Timer, Timers, Loop, loop_100hz, loop_10hz, loop_1hz, loop_01hz, loop_001hz, loop1,
  loop2, loop3, timer_of, set_timer, tick,
}
use robot_framework_ros.BaseNode.Loops.{run_loop, serve, poll, poll_each, loop_order}
use robot_framework_ros.BaseNode.Loops.Schedule.{run_loop-Kept, poll_cases}

-- The place of a loop in the order.
pub rank : Loop → ℕ
rank loop_100hz = 0
rank loop_10hz = 1
rank loop_1hz = 2
rank loop_01hz = 3
rank loop_001hz = 4
rank loop1 = 5
rank loop2 = 6
rank loop3 = 7

abbrev pub Absent : Loop → List Loop → Type 0
Absent l [] = Unit {0}
Absent l (k ∷ ks) = (rank l ≢ rank k) × Absent l ks

-- Each loop stands in the order once.
pub loop_order-split :
    (l : Loop)
    → (before after : List Loop) × (loop_order ≡ before ++ (l ∷ after))
      × Absent l before
      × Absent l after
unfolding rank
loop_order-split loop_100hz = ([], _, refl, omega arith, omega arith)
loop_order-split loop_10hz = (loop_100hz ∷ [], _, refl, omega arith, omega arith)
loop_order-split loop_1hz = (loop_100hz ∷ loop_10hz ∷ [], _, refl, omega arith, omega arith)
loop_order-split loop_01hz =
    (loop_100hz ∷ loop_10hz ∷ loop_1hz ∷ [], _, refl, omega arith, omega arith)
loop_order-split loop_001hz =
    (loop_100hz ∷ loop_10hz ∷ loop_1hz ∷ loop_01hz ∷ [], _, refl, omega arith, omega arith)
loop_order-split loop1 = (
  loop_100hz ∷ loop_10hz ∷ loop_1hz ∷ loop_01hz ∷ loop_001hz ∷ [],
  _,
  refl,
  omega arith,
  omega arith,
)
loop_order-split loop2 = (
  loop_100hz ∷ loop_10hz ∷ loop_1hz ∷ loop_01hz ∷ loop_001hz ∷ loop1 ∷ [],
  _,
  refl,
  omega arith,
  omega arith,
)
loop_order-split loop3 = (
  loop_100hz ∷ loop_10hz ∷ loop_1hz ∷ loop_01hz ∷ loop_001hz ∷ loop1 ∷ loop2 ∷ [],
  _,
  refl,
  omega arith,
  omega arith,
)

module _ ⦃p : Platform⦄ where
  timer_of-set_timer_ne :
      (l k : Loop) (x : Timer) (t : Timers)
      → rank l ≢ rank k
      → timer_of l (set_timer k x t) ≡ timer_of l t
  unfolding rank
  timer_of-set_timer_ne l loop_100hz x t h = ground arith
  timer_of-set_timer_ne l loop_10hz x t h = ground arith
  timer_of-set_timer_ne l _ x t h = ground arith

  pub timer_of-set_timer_self :
      (l : Loop) (x : Timer) (t : Timers) → timer_of l (set_timer l x t) ≡ x
  timer_of-set_timer_self loop_100hz x t = refl
  timer_of-set_timer_self _ x t = refl

  module _ {U E : Type 0} (m : Methods U E) where
    serve-timer_ne :
        (l k : Loop) (n : Node U E)
        → rank l ≢ rank k
        → timer_of l (serve k m n).base.timers ≡ timer_of l n.base.timers
    unfolding serve
    serve-timer_ne l k n h =
        timer_of-set_timer_ne l k _ (run_loop k m n).0.base.timers h
        ∙ ap (timer_of l) (run_loop-Kept m k n).1

    pub poll-timer_ne :
        (l k : Loop) (n : Node U E)
        → rank l ≢ rank k
        → timer_of l (poll k m n).base.timers ≡ timer_of l n.base.timers
    poll-timer_ne l k n h =
        poll_cases m (λ x. timer_of l x.base.timers ≡ timer_of l n.base.timers) k n refl refl
          (λ _. serve-timer_ne l k (record n { derived = tick n.derived }) h)

    pub poll_each-timer-Absent :
        (l : Loop) (ks : List Loop) (n : Node U E)
        → Absent l ks
        → timer_of l (poll_each ks m n).base.timers ≡ timer_of l n.base.timers
    unfolding poll_each
    poll_each-timer-Absent l [] n h = refl
    poll_each-timer-Absent l (k ∷ ks) n h =
        poll_each-timer-Absent l ks (poll k m n) h.1 ∙ poll-timer_ne l k n h.0
