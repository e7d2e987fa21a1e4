-- ===== src/BaseNode.antt =====
-- `class BaseNode` (include/robot_framework_ros/BaseNode.hpp, core/BaseNode/BaseNode.cpp), from
-- which every node inherits.
pub mod Namespace
pub mod State
pub mod Pretty
pub mod Lifecycle
pub mod Timing
pub mod Loops
pub mod Names
pub mod Run
pub mod Init
