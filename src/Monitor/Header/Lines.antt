-- ===== src/Monitor/Header/Lines.antt =====
-- What the header window shows.
use robot_framework_ros.Prelude.{length, Text, ◌≤◌, ◌≡◌, true, some, [], ◌∷◌, arith}
use robot_framework_ros.Platform.{Platform}
use robot_framework_ros.Messages.{ArmCommand}
use robot_framework_ros.Translate.Infrastructure.{arm_command_to_core}
use robot_framework_ros.Monitor.NodeInfo.Row.{white_color, pad}
use robot_framework_ros.Monitor.NodeInfo.Width.{pad-Fills}
use robot_framework_ros.Monitor.Header.{
  ArmedStates, HeaderWindow, armed_color, new_arm_command_msg, time_text, armed_text, update_window,
  update,
}

module _ ⦃p : Platform⦄ where
  shown_lines :
      (a : ArmedStates) (t : p.Real) (w : HeaderWindow) (time armed : Text)
      → w.shown ≡ true
      → pad 40 (time_text t) ≡ some time
      → pad 40 (armed_text a w.latest_arm_command.armed_state) ≡ some armed
      → update a t w
        ≡ some (
          record w { current_time = t },
          true,
          (white_color, time) ∷ (armed_color a w.latest_arm_command.armed_state, armed) ∷ [],
        )
  unfolding update update_window
  shown_lines a t w time armed h e f = ground arith

  -- After an arm command a header window that is on the screen can be updated without an exception
  -- at a time whose text has at most 34 bytes, if the text of the commanded state has at most 27.
  -- It then shows two lines of 40 bytes, the second in the colour of the commanded state.
  pub update-new_arm_command_msg :
      (a : ArmedStates) (t : p.Real) (msg : ArmCommand) (w : HeaderWindow)
      → w.shown ≡ true
      → length (p.to_string t) ≤ 34
      → length (a.pretty_armed_state msg.armed_state.state) ≤ 27
      → (time armed : Text) × (update a t (new_arm_command_msg msg w)
          ≡ some (
            record (new_arm_command_msg msg w) { current_time = t },
            true,
            (white_color, time) ∷ (armed_color a msg.armed_state.state, armed) ∷ [],
          ))
        × (length time ≡ 40)
        × (length armed ≡ 40)
  unfolding new_arm_command_msg arm_command_to_core
  update-new_arm_command_msg a t msg w h short_time short_state =
      let state = msg.armed_state.state in
      let (time, e, long) = pad-Fills 40 (time_text t) (ground arith) in
      let (armed, f, wide) = pad-Fills 40 (armed_text a state) (ground arith) in
      (time, armed, shown_lines a t (new_arm_command_msg msg w) time armed h e f, long, wide)
