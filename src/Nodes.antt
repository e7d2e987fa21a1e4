-- ===== src/Nodes.antt =====
-- Nodes of Systems/.
pub mod Setup
pub mod Startup
pub mod Program
pub mod Process
pub mod JoystickCalibration
pub mod ArmedStateManager
pub mod ServoHat
pub mod TeleopControl
pub mod TrajectoryController
pub mod Imu
pub mod InertialSensorFuser
pub mod LocalPoseFuser
pub mod Example
pub mod TankDriveExecutor
pub mod Arming
pub mod Template
