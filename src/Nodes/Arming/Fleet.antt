-- ===== src/Nodes/Arming/Fleet.antt =====
-- The armed state manager and any number of servo hats, in any interleaving: each node goes through
-- its main loop, and between two rounds of a hat what the manager has published arrives at it, in any
-- order, once, more often or never.
use robot_framework_ros.Prelude.{get_elem?, Text, put, ℕ, ◌≡◌, some, List, [], ◌∷◌, map}
use robot_framework_ros.Platform.{Platform}
use robot_framework_ros.BaseNode.State.{Output, sent}
use robot_framework_ros.BaseNode.Run.{main_loop}
use robot_framework_ros.Nodes.ArmedStateManager.{
  Manager, ManagerNode, State, Incoming, Sent, command_sent, manager_program,
}
use robot_framework_ros.Nodes.ServoHat.{
  Hat, HatNode, State as HatState, Incoming as HatIncoming, command_came, drive_came, receive,
  hat_program,
}

module _ ⦃p : Platform⦄ {M H : Type 0} (q : Manager M) (k : Hat H) where
  pub record Fleet : Type 0 where
    pub manager : ManagerNode q
    pub hats : ℕ → HatNode k

  -- What a hat does with a message of the manager.
  abbrev pub hear : Output Sent → HatNode k → HatNode k
  hear (sent (command_sent msg)) n = record n {
    derived = receive k (command_came msg ∷ []) n.derived;
  }
  hear _ n = n

  -- Drive values, each with its channel.
  abbrev pub drives_came : List (p.Real × ℕ) → List HatIncoming
  drives_came = map (λ x. drive_came x.0 x.1)

  module _ (ids : Text × Text × Text) (c : State q) (e : HatState k) where
    pub data Step : Fleet → Fleet → Type 0 where
      manager_runs :
          (f : Fleet) (arrivals : ℕ → List Incoming)
          → Step f (record f {
            manager = (main_loop 1 (manager_program q ids arrivals c).methods f.manager).0;
          })
      hat_runs :
          (f : Fleet) (i : ℕ) (drives : ℕ → List (p.Real × ℕ))
          → Step f (record f {
            hats =
                put i
                  (main_loop 1
                    (hat_program k ids (λ r. drives_came (drives r)) e).methods
                    (f.hats i)).0
                  f.hats;
          })
      arrives :
          (f : Fleet) (i j : ℕ) (o : Output Sent)
          → get_elem? f.manager.derived.outbox j ≡ some o
          → Step f (record f { hats = put i (hear o (f.hats i)) f.hats })

    pub data Reach (f : Fleet) : Fleet → Type 0 where
      here : Reach f f
      next : {g h : Fleet} → Reach f g → Step g h → Reach f h
