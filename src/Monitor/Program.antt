-- ===== src/Monitor/Program.antt =====
-- The system monitor as a node: `init`, the loops and the `main` of
-- Tools/Applications/SystemMonitor/node/SystemMonitorNode.cpp. `rescanROSNetwork` keeps its
-- subscriptions in the members, and an exception that leaves `run_10hz` ends the program: the
-- members are `none` then, and what the base class does afterwards has no meaning.
pub mod Sound
pub mod Throughout
pub mod Narrow
pub mod Quit
use robot_framework_ros.Prelude.{
  if◌then◌else◌, text, ℕ, zero, suc, Bool, true, false, not, Option, none, some, List, [], ◌∷◌,
}
use robot_framework_ros.Core.{ArmCommandMsg}
use robot_framework_ros.Platform.{Platform}
use robot_framework_ros.Messages.{ArmCommand, Heartbeat, ReadyToArm, Diagnostic}
use robot_framework_ros.BaseNode.State.{Base, Derived, Node, Methods}
use robot_framework_ros.BaseNode.Lifecycle.{init_base_node_diagnostics, base_start}
use robot_framework_ros.BaseNode.Loops.{update}
use robot_framework_ros.Nodes.Setup.{
  Setup, crashed, failed, done, ◌>>=◌, ◌>>◌, call_base_init, unread, subscribe,
}
use robot_framework_ros.Monitor.Window.{
  ScreenCoordinatePixel, ScreenCoordinatePerc, convert_coordinate, dashed, header_coordinates,
  node_info_coordinates, diagnostic_coordinates, status_coordinates,
}
use robot_framework_ros.Monitor.Header.{ArmedStates, new_header_window}
use robot_framework_ros.Monitor.Status.{new_status_window}
use robot_framework_ros.Monitor.NodeInfo.{new_node_info, set_focus}
use robot_framework_ros.Monitor.Diagnostic.{Definitions, new_diagnostic_window}
use robot_framework_ros.Monitor.Network.{TopicInfo, Network, new_network, rescan_ros_network}
use robot_framework_ros.Monitor.Screen.{
  Screen, arm_command_callback, heartbeat_callback, ready_to_arm_callback, diagnostic_callback,
  run_10hz as screen_10hz,
}

-- What curses answers in `initScreen`: `has_colors()`, the size of the screen, whether `newwin` gives
-- a window at a place, and the width of that window.
pub record Terminal : Type 0 where
  pub has_colors : Bool
  pub main_width : ℕ
  pub main_height : ℕ
  pub newwin : ScreenCoordinatePixel → Bool
  pub getmaxx : ScreenCoordinatePixel → ℕ

module _ ⦃p : Platform⦄ where
  pub record Monitor : Type 0 where
    pub screen : Screen
    pub network : Network

  -- The master's topics, and the keys that `getch` gives, by the readings of the clock.
  pub record Surroundings : Type 0 where
    pub terminal : Terminal
    pub definitions : Definitions
    pub armed_states : ArmedStates
    pub topics : ℕ → List TopicInfo
    pub key : ℕ → ℕ

  -- What `spinOnce` hands to the node.
  pub data Incoming : Type 0 where
    arm_command_came : ArmCommand → Incoming
    heartbeat_came : Heartbeat → Incoming
    ready_to_arm_came : ReadyToArm → Incoming
    diagnostic_came : Diagnostic → Incoming

  abbrev pub MonitorState : Type 0
  MonitorState = Derived (Option Monitor) (Unit {0})

  abbrev pub MonitorNode : Type 0
  MonitorNode = Node (Option Monitor) (Unit {0})

  -- `SystemMonitorNode()`, before any window; the command is the one of a new header window.
  unfoldable pub new_monitor : ArmCommandMsg → Monitor
  new_monitor command = record {
    screen = record {
      node_info = new_node_info false;
      diagnostic = new_diagnostic_window false 0;
      header = new_header_window false command;
      status = new_status_window false;
      selected_node = [];
      kill_node = false;
      reads = 0;
    };
    network = new_network;
  }

  abbrev pub on_monitor : (Monitor → Monitor) → MonitorState → MonitorState
  on_monitor f d = record d { own = elim (d.own) [ none ↦ none | some m ↦ some (f m) ] }

  abbrev pub place : Terminal → ScreenCoordinatePerc → ScreenCoordinatePixel
  place t c = convert_coordinate c t.main_width t.main_height

  -- `initWindows`; `none` is the exception of a constructor.
  unfoldable pub init_windows : Terminal → Monitor → Option Monitor
  init_windows t m =
      let node_info = place t node_info_coordinates in
      let diagnostic = place t diagnostic_coordinates in
      elim (dashed node_info) [
        | none ↦ none
        | some line ↦ elim (dashed diagnostic) [
          | none ↦ none
          | some other_line ↦ some (record m {
            screen = record (m.screen) {
              header =
                  new_header_window (t.newwin (place t header_coordinates))
                    m.screen.header.latest_arm_command;
              node_info = set_focus true (new_node_info (t.newwin node_info));
              status = new_status_window (t.newwin (place t status_coordinates));
              diagnostic = new_diagnostic_window (t.newwin diagnostic) (t.getmaxx diagnostic);
            };
          })
        ]
      ]

  -- `initScreen`, without the colours.
  unfoldable pub init_screen : Terminal → Setup MonitorNode (Unit {0})
  init_screen t n = if not t.has_colors then failed n else elim (n.derived.own) [
    | none ↦ crashed
    | some m ↦ elim (init_windows t m) [
      | none ↦ crashed
      | some m' ↦ done tt (record n { derived = record (n.derived) { own = some m' } })
    ]
  ]

  -- `init`; `load_config` is empty.
  unfoldable pub set_up : Terminal → Setup MonitorNode (Unit {0})
  set_up t = do
    call_base_init
    init_screen t
    unread (λ n.
        let (b, status) = init_base_node_diagnostics n.base 0 0 0 in
        (record n { base = b }, status))
    subscribe (text "/arm_command")

  abbrev pub on_screen : (Screen → Screen) → MonitorState → MonitorState
  on_screen f d = on_monitor (λ m. record m { screen = f m.screen }) d

  unfoldable pub receive : List Incoming → MonitorState → MonitorState
  receive [] d = d
  receive (arm_command_came msg ∷ rest) d = receive rest (on_screen (arm_command_callback msg) d)
  receive (heartbeat_came msg ∷ rest) d = receive rest (on_screen (heartbeat_callback msg) d)
  receive (ready_to_arm_came msg ∷ rest) d = receive rest (on_screen (ready_to_arm_callback msg) d)
  receive (diagnostic_came msg ∷ rest) d = receive rest (on_screen (diagnostic_callback msg) d)

  abbrev pub quiet : Base → MonitorState → MonitorState × Bool
  quiet b d = (d, true)

  -- The windows read the clock where the node does.
  unfoldable pub run_10hz : Surroundings → Base → MonitorState → MonitorState × Bool
  run_10hz s b d = elim (d.own) [
    | none ↦ (d, true)
    | some m ↦
        elim (screen_10hz s.definitions s.armed_states (s.key d.reads)
          (record (m.screen) { reads = d.reads })) [
            | none ↦ (record d { own = none }, true)
            | some (screen, shown) ↦
                (record d { own = some (record m { screen = screen }); reads = screen.reads }, true)
          ]
  ]

  unfoldable pub run_1hz : Surroundings → Base → MonitorState → MonitorState × Bool
  run_1hz s b d =
      let scan = rescan_ros_network b.robot_namespace (s.topics d.reads) in
      (on_monitor (λ m. record m { network = scan m.network }) d, true)

  unfoldable pub methods : Surroundings → (ℕ → List Incoming) → Methods (Option Monitor) (Unit {0})
  unfolding base_start
  methods s arrivals = record {
    start = base_start;
    run_100hz = quiet;
    run_10hz = run_10hz s;
    run_1hz = run_1hz s;
    run_01hz = quiet;
    run_001hz = quiet;
    run_loop1 = quiet;
    run_loop2 = quiet;
    run_loop3 = quiet;
    spin_once = λ b d. receive (arrivals d.reads) d;
  }

  -- `kill_node`, or the end by an exception.
  unfoldable pub is_killed : MonitorState → Bool
  is_killed d = elim (d.own) [ none ↦ true | some m ↦ m.screen.kill_node ]

  -- The loop of `main`, for the answers of `ros::ok()` up to the first `false`.
  unfoldable pub monitor_loop :
      ℕ → Methods (Option Monitor) (Unit {0}) → MonitorNode → MonitorNode × Bool
  monitor_loop zero m n = (n, true)
  monitor_loop (suc rounds) m n =
      let (n', status) = update m n in
      let spun : MonitorNode = record n' { derived = m.spin_once n'.base n'.derived } in
      elim (is_killed n.derived) [
        | true ↦ (n, true)
        | false ↦ elim status [ true ↦ monitor_loop rounds m spun | false ↦ (spun, false) ]
      ]
