-- ===== src/Monitor/Network.antt =====
-- `updateMonitorList` and `rescanROSNetwork` of
-- Tools/Applications/SystemMonitor/node/SystemMonitorNode.cpp. The answers of the ROS master are
-- arguments, and a subscriber is the topic that it was made for.
pub mod Subscriptions
pub mod Discovery
use robot_framework_ros.Prelude.{
  if◌then◌else◌, Text, text, text_eq, starts_with, has_piece, Bool, true, false, not, ◌&&◌, List,
  [], ◌∷◌, ◌++◌,
}
use robot_framework_ros.Prelude.Table.{Table}

-- `ros::master::TopicInfo`.
pub record TopicInfo : Type 0 where
  pub name : Text
  pub datatype : Text

-- The members of `SystemMonitorNode` that the scan uses.
pub record Network : Type 0 where
  pub filter_list : Table Text Bool
  pub monitored_heartbeat : List Text
  pub heartbeat_subs : List Text
  pub monitored_ready_to_arm : List Text
  pub ready_to_arm_subs : List Text
  pub monitored_diagnostic : List Text
  pub diagnostic_subs : List Text

-- `SystemMonitorNode()`.
unfoldable pub new_network : Network
new_network = record {
  filter_list = (text "rostopic", true) ∷ [];
  monitored_heartbeat = [];
  heartbeat_subs = [];
  monitored_ready_to_arm = [];
  ready_to_arm_subs = [];
  monitored_diagnostic = [];
  diagnostic_subs = [];
}

-- The inner loop of `updateMonitorList`.
unfoldable pub found_it : Text → List Text → Bool
found_it t [] = false
found_it t (m ∷ ms) = if text_eq m t then true else found_it t ms

-- One outer loop: the monitored topics, and the topics to subscribe.
unfoldable pub add_topics : List Text → List Text × List Text → List Text × List Text
add_topics [] s = s
add_topics (t ∷ ts) (monitored, fresh) = add_topics ts (
    if found_it t monitored then (monitored, fresh) else (monitored ++ (t ∷ []), fresh ++ (t ∷ [])))

-- The names of the topics of one type in the robot's namespace.
unfoldable pub topics_of : Text → Text → List TopicInfo → List Text
topics_of ns datatype [] = []
topics_of ns datatype (info ∷ rest) =
    if text_eq info.datatype datatype && starts_with ns info.name
    then info.name ∷ topics_of ns datatype rest
    else topics_of ns datatype rest

-- The nodes in the robot's namespace that no active filter names. The code makes the list and then
-- does not use it.
passes_filters : Table Text Bool → Text → Bool
passes_filters [] name = true
passes_filters ((piece, active) ∷ rest) name =
    (if active then not (has_piece piece name) else true) && passes_filters rest name

pub node_list : Text → Table Text Bool → List Text → List Text
unfolding passes_filters
node_list ns filters [] = []
node_list ns filters (name ∷ rest) =
    if starts_with ns name && passes_filters filters name
    then name ∷ node_list ns filters rest
    else node_list ns filters rest

-- `updateMonitorList`, with the subscriptions that `rescanROSNetwork` makes of its three results.
unfoldable pub update_monitor_list : List Text → List Text → List Text → Network → Network
update_monitor_list heartbeats ready diagnostics w =
    let (h, new_h) = add_topics heartbeats (w.monitored_heartbeat, []) in
    let (r, new_r) = add_topics ready (w.monitored_ready_to_arm, []) in
    let (d, new_d) = add_topics diagnostics (w.monitored_diagnostic, []) in
    record w {
      monitored_heartbeat = h;
      heartbeat_subs = w.heartbeat_subs ++ new_h;
      monitored_ready_to_arm = r;
      ready_to_arm_subs = w.ready_to_arm_subs ++ new_r;
      monitored_diagnostic = d;
      diagnostic_subs = w.diagnostic_subs ++ new_d;
    }

abbrev pub heartbeat_type : Text
heartbeat_type = text "robot_framework_ros/heartbeat"

abbrev pub ready_to_arm_type : Text
ready_to_arm_type = text "robot_framework_ros/ready_to_arm"

abbrev pub diagnostic_type : Text
diagnostic_type = text "robot_framework_ros/diagnostic"

unfoldable pub rescan_ros_network : Text → List TopicInfo → Network → Network
rescan_ros_network ns topics w =
    update_monitor_list (topics_of ns heartbeat_type topics) (topics_of ns ready_to_arm_type topics)
      (topics_of ns diagnostic_type topics) w
