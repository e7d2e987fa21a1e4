-- ===== src/Monitor/Program/Narrow.antt =====
-- When the system monitor gets its screen.
use robot_framework_ros.Prelude.{
  ltb, Bool-cases, Option-cases, ◌≡◌, ◌↔◌, inl, inr, Bool, true, false, not, ◌&&◌, ◌||◌, none, some,
  arith,
}
use robot_framework_ros.Platform.{Platform}
use robot_framework_ros.Monitor.Window.{dashed, node_info_coordinates, diagnostic_coordinates}
use robot_framework_ros.Nodes.Setup.{Outcome, crashed, failed, done}
use robot_framework_ros.Monitor.Program.{
  Terminal, Monitor, MonitorNode, place, init_windows, init_screen,
}

abbrev pub has_failed : {N A : Type 0} → Outcome N A → Bool
has_failed crashed = false
has_failed (failed n) = true
has_failed (done a n) = false

abbrev pub has_crashed : {N A : Type 0} → Outcome N A → Bool
has_crashed crashed = true
has_crashed (failed n) = false
has_crashed (done a n) = false

module _ ⦃p : Platform⦄ where
  -- The node window or the diagnostic window gets fewer than two columns.
  abbrev pub is_narrow : Terminal → Bool
  is_narrow t =
      ltb (place t node_info_coordinates).width_pix 2
      || ltb (place t diagnostic_coordinates).width_pix 2

  init_windows_iff : (t : Terminal) (m : Monitor) → (init_windows t m ≡ none) ↔ (is_narrow t ≡ true)
  unfolding init_windows dashed
  init_windows_iff t m = ground arith

  -- With the members of a monitor, `initScreen` returns false exactly when the terminal has no
  -- colours, and throws exactly when it has colours and is so narrow that the node window or the
  -- diagnostic window gets fewer than two columns.
  pub init_screen_iff :
      (t : Terminal) (m : Monitor) (n : MonitorNode)
      → n.derived.own ≡ some m
      → (has_failed (init_screen t n) ≡ not t.has_colors)
        × (has_crashed (init_screen t n) ≡ (t.has_colors && is_narrow t))
  unfolding init_screen
  init_screen_iff t m n x = elim (Bool-cases t.has_colors) [
    | inl e ↦ elim (Option-cases (init_windows t m)) [
      | inl f ↦ rw (e, x, init_screen, f) (ground (arith, init_windows_iff t m))
      | inr (m', f) ↦ rw (e, x, init_screen, f) (ground (arith, init_windows_iff t m))
    ]
    | inr e ↦ rw (e, init_screen) (ground arith)
  ]
