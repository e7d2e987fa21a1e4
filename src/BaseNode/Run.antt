-- ===== src/BaseNode/Run.antt =====
-- The `main` function that every node of Systems/ has: `init`, `start`, and `update` until
-- `ros::ok()` or `update` is false. The thread that main starts only reads `is_node_running`, and
-- `spinOnce` after an update runs the same callbacks as the one inside.
pub mod Liveness
pub mod Invariants
pub mod Outbox
pub mod Published
pub mod Heartbeats
use robot_framework_ros.Prelude.{
  if◌then◌else◌, ℕ, zero, suc, Bool, true, false, not, Option, none, some,
}
use robot_framework_ros.Platform.{Platform}
use robot_framework_ros.BaseNode.State.{Derived, Node, Methods, new_base}
use robot_framework_ros.BaseNode.Loops.{update}

module _ ⦃p : Platform⦄ where
  -- A class that inherits: its members when constructed, `init`, the virtual methods, and
  -- `stop`. An `init` without a result ends in an exception that nothing catches.
  pub record Program (U E : Type 0) : Type 0 where
    pub constructed : Derived U E
    pub init : Node U E → Option (Node U E × Bool)
    pub methods : Methods U E
    pub stop : Derived U E → Derived U E

  -- How `main` ends, with the node as it is then.
  pub data Exit (U E : Type 0) : Type 0 where
    terminated : Exit U E
    init_failed : Node U E → Exit U E
    start_failed : Node U E → Exit U E
    finished : Node U E → Exit U E

  module _ {U E : Type 0} where
    -- The loop, for the answers of `ros::ok()` up to the first `false`.
    unfoldable pub main_loop : ℕ → Methods U E → Node U E → Node U E × Bool
    main_loop zero m n = (n, true)
    main_loop (suc rounds) m n =
        let (n', status) = update m n in
        let spun : Node U E = record n' { derived = m.spin_once n'.base n'.derived } in
        elim status [ true ↦ main_loop rounds m spun | false ↦ (spun, false) ]

    unfoldable pub run_main : Program U E → ℕ → Exit U E
    run_main q rounds = elim (q.init (record { base = new_base; derived = q.constructed })) [
      | none ↦ terminated
      | some (n1, ok1) ↦
          if not ok1
          then init_failed n1
          else (let (n2, ok2) = q.methods.start n1 in
              if not ok2
              then start_failed n2
              else (let n3 = (main_loop rounds q.methods n2).0 in
                  finished (record n3 { derived = q.stop n3.derived })))
    ]
