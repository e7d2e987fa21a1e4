-- ===== src/Tests.antt =====
-- The theorems at concrete inputs, on a platform that computes.
mod Bench
mod BaseNode
mod Translate
mod Monitor
mod MonitorProgram
mod MonitorExit
mod Nodes
mod Arming
mod Navigation
mod Pose
mod Robot
mod Discovery
