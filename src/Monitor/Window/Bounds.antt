-- ===== src/Monitor/Window/Bounds.antt =====
-- The buffer of `BaseWindow::pretty`.
use robot_framework_ros.Prelude.{
  Bool-cases, length, length-append, Text, text, ℕ, ◌+◌, ◌≤◌, ◌≡◌, refl, ◌≢◌, inl, inr, Bool, none,
  some, ◌++◌, arith,
}
use robot_framework_ros.Platform.{Platform}
use robot_framework_ros.Monitor.NodeInfo.Width.{length-digits}
use robot_framework_ros.Monitor.Window.{
  ScreenCoordinatePerc, is_initialized, whole, pretty, header_coordinates, node_info_coordinates,
  diagnostic_coordinates, status_coordinates, header_pretty, node_info_pretty, diagnostic_pretty,
  status_pretty,
}

-- Two pieces of bounded lengths.
joined : (m n : ℕ) (a b : Text) → length a ≤ m → length b ≤ n → length (a ++ b) ≤ m + n
joined m n a b h k = ground (arith, length-append a b)

module _ ⦃p : Platform⦄ where
  -- What is there, a label and a number.
  labelled :
      (m n : ℕ) (s label : Text) (x : p.Real)
      → length s ≤ m
      → length label ≤ n
      → length (s ++ label ++ whole x) ≤ m + n + 5
  labelled m n s label x h k =
      joined (m + n) 5 (s ++ label) (whole x) (joined m n s label h k)
        (length-digits 5 (p.truncate x))

  length-placed :
      (name : Text) (c : ScreenCoordinatePerc)
      → length name ≤ 92
      → length (
          name
          ++ text " (X:"
          ++ whole c.start_x_perc
          ++ text "%Y:"
          ++ whole c.start_y_perc
          ++ text "%W:"
          ++ whole c.width_perc
          ++ text "%H:"
          ++ whole c.height_perc
          ++ text "%)")
        ≤ 127
  length-placed name c h =
      let x = labelled 92 4 name (text " (X:") c.start_x_perc h (ground arith) in
      let y = labelled 101 3 _ (text "%Y:") c.start_y_perc x (ground arith) in
      let width = labelled 109 3 _ (text "%W:") c.width_perc y (ground arith) in
      let height = labelled 117 3 _ (text "%H:") c.height_perc width (ground arith) in
      joined 125 2 _ (text "%)") height (ground arith)

  -- The text of a window whose name has at most 92 bytes fits in the buffer, whatever the window's
  -- place on the screen.
  pub pretty-fits :
      (name : Text) (shown : Bool) (c : ScreenCoordinatePerc)
      → length name ≤ 92
      → (str : Text) × (pretty name shown c ≡ some str) × (length str ≤ 127)
  unfolding pretty
  pretty-fits name shown c h = elim (Bool-cases (is_initialized name shown)) [
    | inl e ↦ let placed = length-placed name c h in rw e (_, ground (arith, placed), placed)
    | inr e ↦ rw e (
      name ++ text " Is Uninitialized.",
      refl,
      omega (arith, length-append name (text " Is Uninitialized.")),
    )
  ]

  -- The text of none of the four windows overruns the buffer.
  pub pretties-fit :
      (shown : Bool)
      → (header_pretty shown ≢ none)
        × (node_info_pretty shown ≢ none)
        × (diagnostic_pretty shown ≢ none)
        × (status_pretty shown ≢ none)
  unfolding header_pretty node_info_pretty diagnostic_pretty status_pretty pretty is_initialized
  pretties-fit shown =
      let (_, a, _) = pretty-fits (text "header_window") shown header_coordinates (ground arith) in
      let (_, b, _) =
        pretty-fits (text "node_info_window") shown node_info_coordinates (ground arith) in
      let (_, c, _) =
        pretty-fits (text "diagnostic_window") shown diagnostic_coordinates (ground arith) in
      let (_, d, _) = pretty-fits (text "status_window") shown status_coordinates (ground arith) in
      (rw a (ground arith), rw b (ground arith), rw c (ground arith), rw d (ground arith))
