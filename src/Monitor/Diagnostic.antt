-- ===== src/Monitor/Diagnostic.antt =====
-- `DiagnosticWindow` of Tools/Applications/SystemMonitor (src/Windows/DiagnosticWindow.cpp). The
-- window mode is always `NODE`.
pub mod Messages
pub mod Rows
use robot_framework_ros.Prelude.{
  ltb, leb, ◌==◌, if◌then◌else◌, length, take, Text, text, ℕ, zero, suc, ◌+◌, ◌-◌, Bool, true,
  false, not, ◌||◌, Option, none, some, List, [], ◌∷◌, ◌++◌,
}
use robot_framework_ros.Prelude.Table.{Table, lookup, insert, map_values, text_key, number_key}
use robot_framework_ros.Core.{to_byte}
use robot_framework_ros.Platform.{Platform}
use robot_framework_ros.Messages.{Diagnostic}
use robot_framework_ros.Monitor.NodeInfo.Row.{Color, red_color, blue_color, yellow_color, no_color}

-- `DiagnosticDefinition` of the core library: two values of `DiagnosticType`, and the names of
-- types and messages. `UNKNOWN` is 0, where the loop over the types starts.
pub record Definitions : Type 0 where
  pub unknown_type : ℕ
  pub end_of_list : ℕ
  pub pretty_type : ℕ → Text
  pub pretty_message : ℕ → Text

-- `if (str.size() >= width) str.erase(width - 3)`; `none` is the exception of an index out of
-- range.
unfoldable pub trim : ℕ → Text → Option Text
trim width str =
    if leb width (length str)
    then (if ltb width 3 then none else some (take (width - 3) str))
    else some str

-- `getWindowHeader`, in the mode `NODE`.
abbrev get_window_header : Text
get_window_header = text "  NODE DIAGNOSTICS"

module _ ⦃p : Platform⦄ where
  -- `NodeDiagnosticMonitor`.
  pub record NodeDiagnosticMonitor : Type 0 where
    pub node_diagnostic : Diagnostic
    pub last_update_sec : p.Real
    pub last_update_delta_sec : p.Real

  abbrev pub Monitors : Type 0
  Monitors = Table Text (Table ℕ NodeDiagnosticMonitor)

  pub record DiagnosticWindow : Type 0 where
    pub monitors : Monitors
    pub node_to_monitor : Text
    pub current_time : p.Real
    pub shown : Bool
    pub window_width : ℕ

  -- The window when it is constructed; its time is not initialised.
  unfoldable pub new_diagnostic_window : Bool → ℕ → DiagnosticWindow
  new_diagnostic_window shown width = record {
    monitors = [];
    node_to_monitor = [];
    current_time = p.uninitialised 0;
    shown = shown;
    window_width = width;
  }

  unfoldable pub set_node_to_monitor : Text → DiagnosticWindow → DiagnosticWindow
  set_node_to_monitor name w = record w { node_to_monitor = name }

  -- `m[name]`, which makes a missing entry.
  abbrev pub of_node : Text → Monitors → Table ℕ NodeDiagnosticMonitor
  of_node name m = elim (lookup name m) [ none ↦ [] | some inner ↦ inner ]

  abbrev pub old_delta : ℕ → Table ℕ NodeDiagnosticMonitor → p.Real
  old_delta kind m = elim (lookup kind m) [
    | none ↦ p.decimal 0 1
    | some d ↦ d.last_update_delta_sec
  ]

  unfoldable pub new_diagnostic_msg : Diagnostic → DiagnosticWindow → DiagnosticWindow
  new_diagnostic_msg msg w =
      let inner = of_node msg.node_name w.monitors in
      let entry : NodeDiagnosticMonitor = record {
        node_diagnostic = msg;
        last_update_sec = w.current_time;
        last_update_delta_sec = old_delta msg.diagnostic_type inner;
      } in
      record w {
        monitors = insert msg.node_name (insert msg.diagnostic_type entry inner) w.monitors;
      }

  -- The inner loop of `update` for one diagnostic.
  unfoldable pub check_diagnostic : p.Real → NodeDiagnosticMonitor → NodeDiagnosticMonitor
  check_diagnostic current d =
      let delta = p.sub current d.last_update_sec in
      let d' = record d { last_update_delta_sec = delta } in
      if p.less (p.decimal 50 1) delta
      then record d' {
        node_diagnostic = record (d'.node_diagnostic) { level = to_byte p.level_unknown };
      }
      else d'

  -- `update` up to `updateWindow`, which draws.
  unfoldable pub update_diagnostics : p.Real → DiagnosticWindow → DiagnosticWindow
  update_diagnostics current w = record w {
    current_time = current;
    monitors = map_values (map_values (check_diagnostic current)) w.monitors;
  }

  unfoldable pub level_color : ℕ → Color
  level_color level =
      if level == p.level_unknown
      then red_color
      else if level == p.level_noerror
      then blue_color
      else if level == p.level_debug
      then blue_color
      else if level == p.level_info
      then blue_color
      else if level == p.level_notice
      then blue_color
      else if level == p.level_warn
      then yellow_color
      else if level == p.level_error
      then red_color
      else if level == p.level_fatal
      then red_color
      else red_color

  abbrev pub entry_text : Definitions → ℕ → Diagnostic → Text
  entry_text s kind d =
      s.pretty_type kind
      ++ (text ":"
          ++ (s.pretty_message d.diagnostic_message
              ++ (text "(" ++ (p.to_string (p.to_sec d.stamp) ++ (text ") - " ++ d.description)))))

  -- The row of one type.
  unfoldable pub row_of :
      Definitions → ℕ → ℕ → Table ℕ NodeDiagnosticMonitor → Option (Color × Text)
  row_of s width kind m = elim (lookup kind m) [
    | none ↦ some (no_color, s.pretty_type kind)
    | some d ↦ elim (trim width (entry_text s kind d.node_diagnostic)) [
      | none ↦ none
      | some str ↦ some (level_color d.node_diagnostic.level, str)
    ]
  ]

  -- The loop of `updateWindow` over `count` types from the given one on.
  unfoldable pub rows_from :
      Definitions → ℕ → ℕ → ℕ → Table ℕ NodeDiagnosticMonitor → Option (List (Color × Text))
  rows_from s width zero kind m = some []
  rows_from s width (suc count) kind m =
      let rest = rows_from s width count (kind + 1) m in
      if (kind == 0) || (kind == s.unknown_type) || (kind == s.end_of_list)
      then rest
      else elim (row_of s width kind m) [
        | none ↦ none
        | some row ↦ elim rest [ none ↦ none | some rows ↦ some (row ∷ rows) ]
      ]

  -- `updateWindow`: its result, and the rows that it writes.
  unfoldable pub update_window :
      Definitions → DiagnosticWindow → Option (Bool × List (Color × Text))
  update_window s w =
      if not w.shown then some (false, []) else elim (lookup w.node_to_monitor w.monitors) [
        | none ↦ some (true, [])
        | some m ↦ elim (rows_from s w.window_width s.end_of_list 0 m) [
          | none ↦ none
          | some rows ↦ some (true, rows)
        ]
      ]

  -- `update`: the window, its result and the rows.
  unfoldable pub update :
      Definitions
      → p.Real
      → DiagnosticWindow
      → Option (DiagnosticWindow × Bool × List (Color × Text))
  update s current w =
      let w' = update_diagnostics current w in
      elim (update_window s w') [ none ↦ none | some (ok, rows) ↦ some (w', ok, rows) ]
