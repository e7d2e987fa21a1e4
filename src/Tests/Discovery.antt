-- ===== src/Tests/Discovery.antt =====
-- A node that the system monitor finds, at concrete inputs.
use robot_framework_ros.Prelude.{text, ◌≡◌, refl, true, List, [], ◌∷◌}
use robot_framework_ros.BaseNode.Lifecycle.{request_node_statechange, state_change_allowed}
use robot_framework_ros.BaseNode.Init.{base_init, finish_init, advertise_all, logger_level}
use robot_framework_ros.BaseNode.Run.Outbox.{All}
use robot_framework_ros.Monitor.Network.{
  TopicInfo, new_network, found_it, rescan_ros_network, heartbeat_type, diagnostic_type,
  ready_to_arm_type,
}
use robot_framework_ros.Monitor.Network.Subscriptions.{rescans, rescans-IsSubscribed}
use robot_framework_ros.Monitor.Network.Discovery.{IsNamed, is_named, discovers}
use robot_framework_ros.Tests.Bench.{bench, node_in}

abbrev the_topics : List TopicInfo
the_topics =
    record { name = text "/rosout"; datatype = text "rosgraph_msgs/Log" }
    ∷ record { name = text "/test/node/ready_to_arm"; datatype = ready_to_arm_type }
    ∷ record { name = text "/test/node/heartbeat"; datatype = heartbeat_type }
    ∷ record { name = text "/test/node/diagnostic"; datatype = diagnostic_type }
    ∷ []

base_init-IsNamed : All (IsNamed the_topics) (base_init (node_in 0)).0.derived.outbox
unfolding base_init finish_init advertise_all logger_level request_node_statechange
    state_change_allowed is_named
base_init-IsNamed = (tt, (refl, (refl, (refl, tt))))

discovers_example :
    let w =
      rescan_ros_network (text "/test/") the_topics (rescans (text "/test/") [] new_network) in
    (found_it (text "/test/node/heartbeat") w.heartbeat_subs ≡ true)
    × (found_it (text "/test/node/diagnostic") w.diagnostic_subs ≡ true)
    × (true ≡ true → found_it (text "/test/node/ready_to_arm") w.ready_to_arm_subs ≡ true)
unfolding base_init logger_level request_node_statechange state_change_allowed
discovers_example =
    discovers (node_in 0) (text "/test/") the_topics (rescans (text "/test/") [] new_network)
      (rescans-IsSubscribed (text "/test/") []) refl refl base_init-IsNamed
