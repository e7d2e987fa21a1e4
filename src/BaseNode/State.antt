-- ===== src/BaseNode/State.antt =====
-- The state of a node: the private members of `BaseNode`, and what the class that inherits can
-- reach. The virtual methods read the private part and change the other one only, as the access
-- rules say: no `run_…` of the repository calls `base_init`, `base_start` or `base_restart`.
use robot_framework_ros.Prelude.{Text, text, ℕ, ◌+◌, ◌%◌, ◌^◌, Bool, true, List, [], ◌∷◌, ◌++◌}
use robot_framework_ros.Prelude.Table.{Table}
use robot_framework_ros.Core.{DiagnosticMsg, ReadyToArmStatusMsg}
use robot_framework_ros.Platform.{Platform}
use robot_framework_ros.Messages.{Nodestate, Diagnostic, Heartbeat, ReadyToArm, state_unknown}

-- The loops in the order in which `update` serves them.
pub data Loop : Type 0 where
  loop_100hz loop_10hz loop_1hz loop_01hz loop_001hz loop1 loop2 loop3 : Loop

module _ ⦃p : Platform⦄ where
  -- `last_…_timer` and `m_loop…Cycles` of one loop.
  pub record Timer : Type 0 where
    pub last : p.Time
    pub cycles : ℕ

  pub record Timers : Type 0 where
    pub hz100 : Timer
    pub hz10 : Timer
    pub hz1 : Timer
    pub hz01 : Timer
    pub hz001 : Timer
    pub first : Timer
    pub second : Timer
    pub third : Timer

  -- `loop1_rate` and `loop1_enabled`, and so on.
  pub record UserLoop : Type 0 where
    pub rate : p.Real
    pub enabled : Bool

  pub record Base : Type 0 where
    pub start_time : p.Time
    pub ready_to_arm_publish_enabled : Bool
    pub node_state : Nodestate
    pub node_namespace : Text
    pub node_name : Text
    pub robot_namespace : Text
    pub user1 : UserLoop
    pub user2 : UserLoop
    pub user3 : UserLoop
    pub ros_rate : p.Real
    pub max_rate : p.Real
    pub timers : Timers
    pub base_diagnostics : Table ℕ DiagnosticMsg

  abbrev initial_timer : Timer
  initial_timer = record { last = p.zero_time; cycles = 0 }

  abbrev initial_user_loop : UserLoop
  initial_user_loop = record { rate = p.negate (p.decimal 10 1); enabled = true }

  -- `BaseNode()`.
  unfoldable pub new_base : Base
  new_base = record {
    start_time = p.zero_time;
    ready_to_arm_publish_enabled = true;
    node_state = record { state = state_unknown };
    node_namespace = [];
    node_name = [];
    robot_namespace = text "/";
    user1 = initial_user_loop;
    user2 = initial_user_loop;
    user3 = initial_user_loop;
    ros_rate = p.decimal 40000 1;
    max_rate = p.div (p.decimal 40000 1) (p.decimal 100 1);
    timers = record {
      hz100 = initial_timer;
      hz10 = initial_timer;
      hz1 = initial_timer;
      hz01 = initial_timer;
      hz001 = initial_timer;
      first = initial_timer;
      second = initial_timer;
      third = initial_timer;
    };
    base_diagnostics = [];
  }

  abbrev pub timer_of : Loop → Timers → Timer
  timer_of loop_100hz t = t.hz100
  timer_of loop_10hz t = t.hz10
  timer_of loop_1hz t = t.hz1
  timer_of loop_01hz t = t.hz01
  timer_of loop_001hz t = t.hz001
  timer_of loop1 t = t.first
  timer_of loop2 t = t.second
  timer_of loop3 t = t.third

  abbrev pub set_timer : Loop → Timer → Timers → Timers
  set_timer loop_100hz x t = record t { hz100 = x }
  set_timer loop_10hz x t = record t { hz10 = x }
  set_timer loop_1hz x t = record t { hz1 = x }
  set_timer loop_01hz x t = record t { hz01 = x }
  set_timer loop_001hz x t = record t { hz001 = x }
  set_timer loop1 x t = record t { first = x }
  set_timer loop2 x t = record t { second = x }
  set_timer loop3 x t = record t { third = x }

  -- What a node does to ROS. A topic is advertised with its type. `sent` is a publication of the class that inherits.
  pub data Output (E : Type 0) : Type 0 where
    advertised : Text → Text → Output E
    subscribed : Text → Output E
    service_advertised : Text → Output E
    logger_started : ℕ → Text → Output E
    heartbeat_sent : Heartbeat → Output E
    diagnostic_sent : Diagnostic → Output E
    ready_to_arm_sent : ReadyToArm → Output E
    sent : E → Output E

  -- `diagnostics_`, `ready_to_arm_`, the members of the class that inherits, the number of times
  -- the clock was read, and the outputs so far, the oldest first.
  pub record Derived (U E : Type 0) : Type 0 where
    pub diagnostics : List DiagnosticMsg
    pub ready_to_arm : ReadyToArmStatusMsg
    pub own : U
    pub reads : ℕ
    pub outbox : List (Output E)

  pub record Node (U E : Type 0) : Type 0 where
    pub base : Base
    pub derived : Derived U E

  -- The virtual methods, and the callbacks that `ros::spinOnce()` runs. `start` sees the whole
  -- node, since it calls `base_start`.
  pub record Methods (U E : Type 0) : Type 0 where
    pub start : Node U E → Node U E × Bool
    pub run_100hz : Base → Derived U E → Derived U E × Bool
    pub run_10hz : Base → Derived U E → Derived U E × Bool
    pub run_1hz : Base → Derived U E → Derived U E × Bool
    pub run_01hz : Base → Derived U E → Derived U E × Bool
    pub run_001hz : Base → Derived U E → Derived U E × Bool
    pub run_loop1 : Base → Derived U E → Derived U E × Bool
    pub run_loop2 : Base → Derived U E → Derived U E × Bool
    pub run_loop3 : Base → Derived U E → Derived U E × Bool
    pub spin_once : Base → Derived U E → Derived U E

  -- `set_diagnostics` and `set_ready_to_arm`.
  unfoldable pub set_diagnostics : {U E : Type 0} → List DiagnosticMsg → Derived U E → Derived U E
  set_diagnostics ds d = record d { diagnostics = ds }

  unfoldable pub set_ready_to_arm : {U E : Type 0} → ReadyToArmStatusMsg → Derived U E → Derived U E
  set_ready_to_arm r d = record d { ready_to_arm = r }

  -- The n-th call of `ros::Time::now()`.
  abbrev pub tick : {U E : Type 0} → Derived U E → Derived U E
  tick d = record d { reads = d.reads + 1 }

  abbrev pub emit : {U E : Type 0} → Output E → Derived U E → Derived U E
  emit o d = record d { outbox = d.outbox ++ (o ∷ []) }

  -- A `uint64_t` counter.
  abbrev pub next_cycle : ℕ → ℕ
  next_cycle c = (c + 1) % 2 ^ 64
