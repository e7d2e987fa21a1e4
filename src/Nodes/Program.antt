-- ===== src/Nodes/Program.antt =====
-- The program of a node with a process whose `run_100hz`, `run_001hz` and `run_loop3` are empty and
-- whose `run_10hz` only shows whether the process is ready, as in most nodes of Systems/.
use robot_framework_ros.Prelude.{ℕ, suc, ◌≡◌, refl, Bool, true, false, some, List}
use robot_framework_ros.Platform.{Platform}
use robot_framework_ros.BaseNode.State.{
  Base, Derived, Node, set_diagnostics, set_ready_to_arm, new_base,
}
use robot_framework_ros.BaseNode.Run.{Program, main_loop, run_main}
use robot_framework_ros.BaseNode.Run.Invariants.{IsKept, OfExit, base_start-kept, run_main-kept}
use robot_framework_ros.BaseNode.Run.Outbox.{messages, messages-IsUndisturbed}
use robot_framework_ros.Nodes.Process.{
  Process, Members, set_running, start, show_ready, take_diagnostics, give_diagnostics, quiet,
}
use robot_framework_ros.Nodes.Setup.{Setup, result}
use robot_framework_ros.Nodes.Setup.Leads.{Leads}
use robot_framework_ros.Nodes.Setup.Ready.{At, fresh, ready, prepared-goes_on}
use robot_framework_ros.Nodes.Setup.Silent.{IsSilent, result-OfInit}

module _ ⦃p : Platform⦄ where
  -- The type of a `run_…` method.
  abbrev pub RunOf : Type 0 → Type 0 → Type 0 → Type 0
  RunOf P M E = Base → Derived (Members P M) E → Derived (Members P M) E × Bool

module _ ⦃p : Platform⦄ {P M E : Type 0} where
  unfoldable pub run_10hz : Process P → RunOf P M E
  run_10hz q b d = (show_ready q d, true)

  unfoldable pub process_program :
      Process P
      → Setup (Node (Members P M) E) (Unit {0})
      → RunOf P M E
      → RunOf P M E
      → (Derived (Members P M) E → Derived (Members P M) E)
      → Derived (Members P M) E
      → Program (Members P M) E
  unfolding take_diagnostics give_diagnostics run_10hz start
  process_program q set_up run_loop1 run_loop2 spin_once constructed = record {
    constructed = constructed;
    init = λ n. result (set_up n);
    methods = record {
      start = start;
      run_100hz = quiet;
      run_10hz = run_10hz q;
      run_1hz = take_diagnostics q;
      run_01hz = give_diagnostics q;
      run_001hz = quiet;
      run_loop1 = run_loop1;
      run_loop2 = run_loop2;
      run_loop3 = quiet;
      spin_once = λ b d. spin_once d;
    };
    stop = set_running false;
  }

  -- After an `init` that succeeds, `start` succeeds and no `update` returns false.
  abbrev pub GoesOn : Program (Members P M) E → Type 0
  GoesOn r =
      (n n' : Node (Members P M) E) (rounds : ℕ)
      → r.init n ≡ some (n', true)
      → ((r.methods.start n').1 ≡ true)
        × ((main_loop (suc rounds) r.methods (r.methods.start n').0).1 ≡ true)

  module _ (q : Process P) (set_up : Setup (Node (Members P M) E) (Unit {0}))
      (run_loop1 run_loop2 : RunOf P M E)
      (spin_once : Derived (Members P M) E → Derived (Members P M) E)
      (constructed : Derived (Members P M) E) where
    pub process_program-GoesOn :
        Leads (At fresh) set_up (At ready)
        → GoesOn (process_program q set_up run_loop1 run_loop2 spin_once constructed)
    unfolding process_program
    process_program-GoesOn h n n' rounds e =
        let m = (process_program q set_up run_loop1 run_loop2 spin_once constructed).methods in
        prepared-goes_on set_up m n n' rounds h (λ x. refl) e

    -- What the class publishes, and its own members but the process: only `run_loop1`, `run_loop2`
    -- and the callbacks can change them.
    pub process_program-IsKept :
        (I : M → List E → Type 0)
        → let J : Derived (Members P M) E → Type 0 = λ d. I d.own.more (messages d.outbox) in
          ((b : Base) (d : Derived (Members P M) E) → J d → J (run_loop1 b d).0)
          → ((b : Base) (d : Derived (Members P M) E) → J d → J (run_loop2 b d).0)
          → ((d : Derived (Members P M) E) → J d → J (spin_once d))
          → IsKept J (process_program q set_up run_loop1 run_loop2 spin_once constructed).methods
    unfolding process_program run_10hz take_diagnostics give_diagnostics set_diagnostics
        set_ready_to_arm
    process_program-IsKept I first second spin = record {
      run_100hz = λ b d h. h;
      run_10hz = λ b d h. h;
      run_1hz = λ b d h. h;
      run_01hz = λ b d h. h;
      run_001hz = λ b d h. h;
      run_loop1 = first;
      run_loop2 = second;
      run_loop3 = λ b d h. h;
      spin_once = λ b d h. spin d h;
    }

    -- The messages over the whole of `main`.
    pub process_program-kept :
        (G : List E → Type 0)
        → let J : Derived (Members P M) E → Type 0 = λ d. G (messages d.outbox) in
          IsSilent set_up
          → ((b : Base) (d : Derived (Members P M) E) → J d → J (run_loop1 b d).0)
          → ((b : Base) (d : Derived (Members P M) E) → J d → J (run_loop2 b d).0)
          → ((d : Derived (Members P M) E) → J d → J (spin_once d))
          → J constructed
          → (rounds : ℕ)
          → OfExit J
              (run_main (process_program q set_up run_loop1 run_loop2 spin_once constructed) rounds)
    unfolding process_program start
    process_program-kept G silent first second spin g rounds =
        let J : Derived (Members P M) E → Type 0 = λ d. G (messages d.outbox) in
        let u = messages-IsUndisturbed (λ _ es. G es) in
        run_main-kept J u (process_program q set_up run_loop1 run_loop2 spin_once constructed)
          rounds
          (result-OfInit G _ _ (silent.silent (record { base = new_base; derived = constructed }))
            g)
          (λ n h. base_start-kept J u _ h) (process_program-IsKept (λ _ es. G es) first second spin)
          (λ d h. h)
