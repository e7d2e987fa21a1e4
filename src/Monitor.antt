-- ===== src/Monitor.antt =====
-- The system monitor (Tools/Applications/SystemMonitor).
pub mod Network
pub mod Integers
pub mod Selection
pub mod NodeInfo
pub mod Diagnostic
pub mod Window
pub mod Header
pub mod Status
pub mod Screen
pub mod Program
pub mod Main
pub mod Watching
pub mod Robot
