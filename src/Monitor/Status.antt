-- ===== src/Monitor/Status.antt =====
-- `StatusWindow` of Tools/Applications/SystemMonitor (src/Windows/StatusWindow.cpp).
use robot_framework_ros.Prelude.{Bool}
use robot_framework_ros.Platform.{Platform}

module _ ⦃p : Platform⦄ where
  pub record StatusWindow : Type 0 where
    pub current_time : p.Real
    pub shown : Bool

  unfoldable pub new_status_window : Bool → StatusWindow
  new_status_window shown = record { current_time = p.uninitialised 0; shown = shown }

  -- The window shows nothing but its frame.
  unfoldable pub update : p.Real → StatusWindow → StatusWindow × Bool
  update current w = (record w { current_time = current }, w.shown)
