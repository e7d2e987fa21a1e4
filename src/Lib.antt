-- ===== src/Lib.antt =====
-- Verification of robot_framework_ros, the ROS nodes of a robot framework.
--
-- The program. Every node inherits from `BaseNode` (core/BaseNode), which has the state machine of a
-- node, serves its loops from `update`, publishes heartbeats, diagnostics and the ready-to-arm status,
-- and watches the timing of the loops. A node of Systems/ wraps a process of the core library (not in
-- the repository): its callbacks and loops pass messages to the process through `TranslateUtility`
-- (core/utils), and its `main` runs `init`, `start` and `update`. The system monitor
-- (Tools/Applications/SystemMonitor) finds the nodes of a robot and shows what they publish.
--
-- The files.
--   Prelude           texts as lists of bytes, tests, lists, and `std::map` as a sorted list.
--   Core, Platform    what comes from outside: messages of the core library; `double`, `ros::Time`, the
--                     parameter server and constants, as the members of one instance argument. What
--                     a core message holds beside its known members is a type of it.
--   Messages          msg/ and srv/.
--   Translate         core/utils/TranslateUtility: one pair of functions for each pair of `convert`.
--   BaseNode          core/BaseNode/BaseNode.cpp. State has the members; Lifecycle the state machine,
--                     `base_start` and `base_restart`; Init `base_init`; Namespace, Names and Pretty
--                     the texts; Timing the timing diagnostic; Loops `update`; Run the `main` of the nodes.
--   Monitor           Network is `updateMonitorList` and `rescanROSNetwork`; Selection is from
--                     src/BaseWindow.cpp; Window is the rest of it with the places of the windows;
--                     Header, NodeInfo, Status and Diagnostic are the windows of those names; Screen
--                     has the callbacks and `run_10hz` over them; Program the rest of
--                     `SystemMonitorNode`: `init`, the other loops and the loop of `main`; Main its
--                     `main`; Watching puts a node and the monitor together; Robot puts all nodes
--                     and the window of the nodes together, in steps of any order.
--   Nodes             one module for each node of Systems/, for core/ExampleNode and for the node that
--                     templates/Node makes (Template). Process has what the nodes take from their
--                     processes; Setup the calls that an `init` is made of, as a monad in which a
--                     call goes on, fails or crashes; Program the loops and the `main` that most
--                     nodes share; Startup what `start` needs; Arming puts the armed state
--                     manager and the receivers of its command together, Arming.Fleet in steps of
--                     any order.
--   Tests             a platform that computes, and the theorems applied on it.
--
-- How state corresponds. A method that changes members is a function from the node to the node and
-- its result. What a node publishes, subscribes and logs to a file is a list of outputs. The virtual
-- methods of a node see the private members of `BaseNode` and change the others only. The clock is a
-- function of the number of times that it was read, and what the callbacks receive is a function of
-- it too. A result `none` is an exception or a fault that ends the program; an exception in
-- `run_10hz` of the system monitor leaves `none` for its members, and what follows in that round has
-- no meaning; in the loops of the IMU node and the pose fusers a write past an array is an output
-- `overran`, and what follows it has no meaning.
--
-- Bounds and fuel. The loop of `validate_robotnamespace` has the fuel that the code has, the length
-- of the text, which is enough since each round removes a byte. `main_loop` runs for a given number
-- of rounds, as long as `ros::ok()`. The digits of an id are at most five, since it is a `uint16_t`.
-- Counters of loops wrap at 2^64 and records at 2^16.
--
-- Not modelled. The frames, the cursor and the colour pairs of the terminal, log lines, sleeping, the
-- mutexes (one thread enters the methods that take them), the signal handlers, scripts and launch files.
pub mod Prelude
pub mod Core
pub mod Platform
pub mod Messages
pub mod Translate
pub mod BaseNode
pub mod Monitor
pub mod Nodes
pub mod Tests
