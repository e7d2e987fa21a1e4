-- ===== src/BaseNode/Pretty.antt =====
-- The texts of the state of a node: `CoreUtility::pretty` of core/utils/CoreUtility/CoreUtility.cpp and
-- `BaseNode::pretty` of core/BaseNode/BaseNode.cpp.
use robot_framework_ros.Prelude.{◌==◌, if◌then◌else◌, Text, text, ◌++◌}
use robot_framework_ros.Platform.{Platform}
use robot_framework_ros.Messages.{
  Nodestate, state_unknown, state_initializing, state_starting, state_running, state_paused,
  state_restart, state_finished,
}
use robot_framework_ros.BaseNode.State.{Base}

unfoldable pub pretty : Nodestate → Text
pretty s =
    if s.state == state_unknown
    then text "UNKNOWN"
    else if s.state == state_initializing
    then text "INITIALIZING"
    else if s.state == state_starting
    then text "STARTING"
    else if s.state == state_running
    then text "RUNNING"
    else if s.state == state_paused
    then text "PAUSED"
    else if s.state == state_restart
    then text "RESTART"
    else if s.state == state_finished
    then text "FINISHED"
    else text "UNKNOWN"

-- `BaseNode::pretty`.
unfoldable pretty_node : ⦃p : Platform⦄ → Base → Text
unfolding pretty
pretty_node b = text "Node State: " ++ pretty b.node_state
