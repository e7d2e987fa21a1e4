-- ===== src/Monitor/Window.antt =====
-- What the windows share: src/BaseWindow.cpp and src/CommonWindowUtility.cpp of
-- Tools/Applications/SystemMonitor, and where each window is on the screen.
pub mod Bounds
use robot_framework_ros.Prelude.{
  ltb, if◌then◌else◌, length, replicate, Text, text, text_eq, ℕ, ◌-◌, Bool, false, Option, none,
  some, [], ◌∷◌, ◌++◌,
}
use robot_framework_ros.Platform.{Platform}
use robot_framework_ros.Monitor.NodeInfo.Row.{digits}

pub record ScreenCoordinatePixel : Type 0 where
  pub start_x_pix : ℕ
  pub start_y_pix : ℕ
  pub width_pix : ℕ
  pub height_pix : ℕ

-- `BaseWindow::isInitialized`, for the name and whether there is a window.
unfoldable pub is_initialized : Text → Bool → Bool
is_initialized name shown = if text_eq name [] then false else shown

-- `std::string dashed(getScreenCoordinatesPixel().widthPix - 2, '-')` of the constructors; `none` is
-- the exception when the difference is negative.
unfoldable pub dashed : ScreenCoordinatePixel → Option Text
dashed c = if ltb c.width_pix 2 then none else some (replicate (c.width_pix - 2) 45)

module _ ⦃p : Platform⦄ where
  pub record ScreenCoordinatePerc : Type 0 where
    pub start_x_perc : p.Real
    pub start_y_perc : p.Real
    pub width_perc : p.Real
    pub height_perc : p.Real

  -- `(uint16_t)((double)pix * (.01 * perc))`.
  abbrev pub share : ℕ → p.Real → ℕ
  share pix perc = p.truncate (p.mul (p.of_count pix) (p.mul (p.decimal 1 2) perc))

  unfoldable pub convert_coordinate : ScreenCoordinatePerc → ℕ → ℕ → ScreenCoordinatePixel
  convert_coordinate c width height = record {
    start_x_pix = share width c.start_x_perc;
    start_y_pix = share height c.start_y_perc;
    width_pix = share width c.width_perc;
    height_pix = share height c.height_perc;
  }

  abbrev coordinates : ℕ → ℕ → ℕ → ℕ → ScreenCoordinatePerc
  coordinates x y width height = record {
    start_x_perc = p.decimal x 1;
    start_y_perc = p.decimal y 1;
    width_perc = p.decimal width 1;
    height_perc = p.decimal height 1;
  }

  -- The constants of the four windows, in tenths.
  abbrev pub header_coordinates : ScreenCoordinatePerc
  header_coordinates = coordinates 0 0 1000 150

  abbrev pub node_info_coordinates : ScreenCoordinatePerc
  node_info_coordinates = coordinates 0 150 660 600

  abbrev pub diagnostic_coordinates : ScreenCoordinatePerc
  diagnostic_coordinates = coordinates 660 150 345 600

  abbrev pub status_coordinates : ScreenCoordinatePerc
  status_coordinates = coordinates 0 800 300 200

  abbrev pub whole : p.Real → Text
  whole x = digits 5 (p.truncate x)

  -- `BaseWindow::pretty`; `none` is the overrun of its 128 bytes, the last of them zero.
  unfoldable pub pretty : Text → Bool → ScreenCoordinatePerc → Option Text
  pretty name shown c =
      if is_initialized name shown
      then (let str =
            name
            ++ text " (X:"
            ++ whole c.start_x_perc
            ++ text "%Y:"
            ++ whole c.start_y_perc
            ++ text "%W:"
            ++ whole c.width_perc
            ++ text "%H:"
            ++ whole c.height_perc
            ++ text "%)" in
          if ltb 127 (length str) then none else some str)
      else some (name ++ text " Is Uninitialized.")

  -- The title of a window, a line break (the byte 10), and the text of `BaseWindow::pretty`.
  abbrev titled : Text → Text → Bool → ScreenCoordinatePerc → Option Text
  titled title name shown c = elim (pretty name shown c) [
    | none ↦ none
    | some str ↦ some (title ++ (10 ∷ []) ++ str)
  ]

  unfoldable pub header_pretty : Bool → Option Text
  header_pretty shown =
      titled (text "---Header Window---") (text "header_window") shown header_coordinates

  unfoldable pub node_info_pretty : Bool → Option Text
  node_info_pretty shown =
      titled (text "---Node Info Window---") (text "node_info_window") shown node_info_coordinates

  unfoldable pub diagnostic_pretty : Bool → Option Text
  diagnostic_pretty shown =
      titled (text "---Diagnostic Window---") (text "diagnostic_window") shown
        diagnostic_coordinates

  unfoldable pub status_pretty : Bool → Option Text
  status_pretty shown =
      titled (text "---Status Window---") (text "status_window") shown status_coordinates
