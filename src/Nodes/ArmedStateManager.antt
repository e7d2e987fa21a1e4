-- ===== src/Nodes/ArmedStateManager.antt =====
-- `ArmedStateManagerNode` of Systems/Safety/Subsystems/ModeManager/Nodes/ArmedStateManager.
pub mod Start
pub mod Subscriptions
use robot_framework_ros.Prelude.{
  ◌==◌, length, Text, text, ℕ, ◌%◌, Bool, true, false, not, List, [], ◌∷◌, ◌++◌,
}
use robot_framework_ros.Core.{
  ReadyToArmStatusMsg, ArmCommandMsg, ArmStateChangeRequest, ArmStateChangeResponse,
}
use robot_framework_ros.Platform.{Platform}
use robot_framework_ros.Messages.{Request, Response, ReadyToArm, ArmCommand}
use robot_framework_ros.Translate.Infrastructure.{
  request_to_core, response_to_ros, ready_to_arm_to_core, arm_command_to_ros,
}
use robot_framework_ros.BaseNode.State.{
  Base, Derived, Node, sent, emit, subscribed, service_advertised,
}
use robot_framework_ros.BaseNode.Run.{Program}
use robot_framework_ros.Nodes.Setup.{
  Setup, done, ◌>>=◌, ◌>>◌, call_base_init, call_process, call_diagnostics, config_path, required,
  checked, advertise, change, result,
}
use robot_framework_ros.Nodes.Process.{
  Process, Members, with_process, set_running, start, update_process, show_ready, take_diagnostics,
  give_diagnostics, quiet,
}

module _ ⦃p : Platform⦄ where
  -- `ArmedStateManagerProcess`, of the core library. `set_config` gets `expected_arm_signals`.
  pub record Manager (P : Type 0) : Type 0 where
    pub common : Process P
    pub init : P → P × Bool
    pub set_config : ℕ → P → P × Bool
    pub request_armstate_change : ArmStateChangeRequest → P → P × ArmStateChangeResponse
    pub new_ready_to_arm_status : ReadyToArmStatusMsg → P → P × Bool
    pub get_arm_command : P → ArmCommandMsg

  -- The other members; a subscriber is its topic.
  pub record Monitored : Type 0 where
    pub nodes_to_monitor : List Text
    pub ready_to_arm_subs : List Text

  pub data Sent : Type 0 where
    command_sent : ArmCommand → Sent
    answered : Response → Sent

  -- What `spinOnce` hands to the node.
  pub data Incoming : Type 0 where
    ready_came : ReadyToArm → Incoming
    change_asked : Request → Incoming

  module _ {P : Type 0} (q : Manager P) where
    abbrev pub State : Type 0
    State = Derived (Members P Monitored) Sent

    abbrev pub ManagerNode : Type 0
    ManagerNode = Node (Members P Monitored) Sent

    unfoldable pub arm_statechange_service : Request → P → P × Response × Bool
    arm_statechange_service req x =
        let (x', response) = q.request_armstate_change (request_to_core req) x in
        (x', response_to_ros response, true)

    unfoldable pub ready_to_arm_callback : ReadyToArm → P → P
    ready_to_arm_callback msg x = (q.new_ready_to_arm_status (ready_to_arm_to_core msg) x).0

    unfoldable pub receive : List Incoming → State → State
    receive [] d = d
    receive (ready_came msg ∷ rest) d =
        receive rest (with_process (ready_to_arm_callback msg d.own.process) d)
    receive (change_asked req ∷ rest) d =
        let (x, response, ok) = arm_statechange_service req d.own.process in
        receive rest (emit (sent (answered response)) (with_process x d))

    abbrev pub keep_names : List Text → State → State
    keep_names names d = record d {
      own = record (d.own) { more = record (d.own.more) { nodes_to_monitor = names } };
    }

    unfoldable pub load_config : (Text × Text × Text) → Setup ManagerNode (Unit {0})
    load_config ids = do
      path ← config_path ids
      names ← required (λ n. p.param_texts (path ++ text "/nodes_to_monitor"))
      change (keep_names names)
      call_process (q.set_config (length names % 256))

    -- The loop over `nodes_to_monitor` of `init`.
    unfoldable pub subscribe_each : Text → List Text → State → State
    subscribe_each ns [] d = d
    subscribe_each ns (name ∷ names) d =
        let topic = ns ++ (name ++ text "/ready_to_arm") in
        let more = record (d.own.more) {
          ready_to_arm_subs = d.own.more.ready_to_arm_subs ++ (topic ∷ []);
        } in
        subscribe_each ns names
          (emit (subscribed topic) (record d { own = record (d.own) { more = more } }))

    unfoldable pub subscribe_all : Setup ManagerNode (Unit {0})
    subscribe_all n =
        let names = n.derived.own.more.nodes_to_monitor in
        done tt (record n { derived = subscribe_each n.base.robot_namespace names n.derived })

    -- `ready_to_arm_subs.size() == 0` is an error.
    unfoldable pub check_subscribed : Setup ManagerNode (Unit {0})
    check_subscribed = checked (λ n. (n, not (length n.derived.own.more.ready_to_arm_subs == 0)))

    unfoldable pub offer_service : Setup ManagerNode (Unit {0})
    offer_service n =
        let service = n.base.robot_namespace ++ text "/arm_state_change" in
        done tt (record n { derived = emit (service_advertised service) n.derived })

    -- `init`.
    unfoldable pub set_up : (Text × Text × Text) → Setup ManagerNode (Unit {0})
    set_up ids = do
      call_base_init
      call_process q.init
      load_config ids
      advertise (text "robot_framework_ros/arm_command") (text "/arm_command")
      subscribe_all
      check_subscribed
      offer_service
      call_diagnostics q.common
      change (show_ready q.common)

    unfoldable pub run_loop1 : Base → State → State × Bool
    run_loop1 b d = (update_process q.common d, true)

    unfoldable pub run_10hz : Base → State → State × Bool
    run_10hz b d =
        let d' = show_ready q.common d in
        (emit (sent (command_sent (arm_command_to_ros (q.get_arm_command d.own.process)))) d', true)

    unfoldable pub manager_program :
        (Text × Text × Text) → (ℕ → List Incoming) → State → Program (Members P Monitored) Sent
    manager_program ids arrivals constructed = record {
      constructed = constructed;
      init = λ n. result (set_up ids n);
      methods = record {
        start = start;
        run_100hz = quiet;
        run_10hz = run_10hz;
        run_1hz = take_diagnostics q.common;
        run_01hz = give_diagnostics q.common;
        run_001hz = quiet;
        run_loop1 = run_loop1;
        run_loop2 = quiet;
        run_loop3 = quiet;
        spin_once = λ b d. receive (arrivals d.reads) d;
      };
      stop = set_running false;
    }
