-- ===== src/Monitor/Header.antt =====
-- `HeaderWindow` of Tools/Applications/SystemMonitor (src/Windows/HeaderWindow.cpp).
pub mod Lines
use robot_framework_ros.Prelude.{
  ◌==◌, if◌then◌else◌, Text, text, ℕ, Bool, true, false, not, Option, none, some, List, [], ◌∷◌,
  ◌++◌,
}
use robot_framework_ros.Core.{ArmCommandMsg}
use robot_framework_ros.Platform.{Platform}
use robot_framework_ros.Messages.{ArmCommand}
use robot_framework_ros.Translate.Infrastructure.{arm_command_to_core}
use robot_framework_ros.Monitor.NodeInfo.Row.{
  Color, red_color, blue_color, green_color, white_color, pad,
}

-- `fast::rf::ArmedState`, by its values, and its `pretty`.
pub record ArmedStates : Type 0 where
  pub armed : ℕ
  pub disarmed_cannot_arm : ℕ
  pub disarmed : ℕ
  pub arming : ℕ
  pub pretty_armed_state : ℕ → Text

-- The switch of `updateWindow`.
unfoldable pub armed_color : ArmedStates → ℕ → Color
armed_color a state =
    if state == a.armed
    then blue_color
    else if state == a.disarmed_cannot_arm
    then red_color
    else if state == a.disarmed
    then green_color
    else if state == a.arming
    then green_color
    else red_color

module _ ⦃p : Platform⦄ where
  pub record HeaderWindow : Type 0 where
    pub latest_arm_command : ArmCommandMsg
    pub current_time : p.Real
    pub shown : Bool

  unfoldable pub new_header_window : Bool → ArmCommandMsg → HeaderWindow
  new_header_window shown command = record {
    latest_arm_command = command;
    current_time = p.uninitialised 0;
    shown = shown;
  }

  unfoldable pub new_arm_command_msg : ArmCommand → HeaderWindow → HeaderWindow
  new_arm_command_msg msg w = record w { latest_arm_command = arm_command_to_core msg }

  abbrev pub time_text : p.Real → Text
  time_text t = text "Time: " ++ p.to_string t

  abbrev pub armed_text : ArmedStates → ℕ → Text
  armed_text a state = text "Armed State: " ++ a.pretty_armed_state state

  -- The result and the two lines; `none` is the exception of `str.insert` when a text is wider than
  -- its 40 columns.
  unfoldable pub update_window : ArmedStates → HeaderWindow → Option (Bool × List (Color × Text))
  update_window a w =
      let state = w.latest_arm_command.armed_state in
      if not w.shown then some (false, []) else elim (pad 40 (time_text w.current_time)) [
        | none ↦ none
        | some time ↦ elim (pad 40 (armed_text a state)) [
          | none ↦ none
          | some armed ↦ some (true, (white_color, time) ∷ (armed_color a state, armed) ∷ [])
        ]
      ]

  unfoldable pub update :
      ArmedStates → p.Real → HeaderWindow → Option (HeaderWindow × Bool × List (Color × Text))
  update a current w =
      let w' : HeaderWindow = record w { current_time = current } in
      elim (update_window a w') [ none ↦ none | some (ok, rows) ↦ some (w', ok, rows) ]
