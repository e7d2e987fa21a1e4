-- ===== src/Translate.antt =====
-- `TranslateUtility` (core/utils/TranslateUtility): conversions between ROS and core messages.
pub mod Standard
pub mod StandardLaws
pub mod Geometry
pub mod Sensor
pub mod GeometryLaws
pub mod SensorLaws
pub mod Infrastructure
pub mod InfrastructureLaws
