-- ===== src/Monitor/NodeInfo/Row.antt =====
-- What `NodeInfoWindow` draws: `getWindowHeader`, `get_node_info` and `updateWindow` of
-- Tools/Applications/SystemMonitor/src/Windows/NodeInfoWindow.cpp, for the columns that the
-- constructor adds. The result `none` is the exception of `std::string(spaces, ' ')` when the text
-- is wider than its column.
use robot_framework_ros.Prelude.{
  ltb, ◌==◌, if◌then◌else◌, length, take, drop, replicate, Text, text, starts_with, ℕ, zero, suc,
  ◌+◌, ◌-◌, ◌/◌, ◌%◌, ◌^◌, Bool, true, false, not, Option, none, some, List, [], ◌∷◌, ◌++◌,
}
use robot_framework_ros.Platform.{Platform}
use robot_framework_ros.Messages.{
  Nodestate, state_unknown, state_initializing, state_starting, state_running, state_paused,
  state_restart, state_finished,
}
use robot_framework_ros.BaseNode.Pretty.{pretty}
use robot_framework_ros.Monitor.Integers.{ℤ, pos, eqbℤ}
use robot_framework_ros.Monitor.NodeInfo.{NodeData, NodeInfo, update_records}

-- `Color` of include/Definitions.hpp.
pub data Color : Type 0 where
  unknown_color no_color red_color yellow_color green_color blue_color white_color purple_color :
      Color

-- The switch of `updateWindow`.
unfoldable pub color_of : Nodestate → Color
color_of s =
    if s.state == state_unknown
    then red_color
    else if s.state == state_initializing
    then yellow_color
    else if s.state == state_starting
    then yellow_color
    else if s.state == state_running
    then blue_color
    else if s.state == state_paused
    then green_color
    else if s.state == state_restart
    then yellow_color
    else if s.state == state_finished
    then yellow_color
    else red_color

-- The bytes 32, 42 and 48 are the space, the star and the digit 0.
-- `std::to_string` of a `uint16_t`, at most the given number of digits.
unfoldable pub digits : ℕ → ℕ → Text
digits zero n = []
digits (suc f) n = if ltb n 10 then (48 + n) ∷ [] else digits f (n / 10) ++ ((48 + n % 10) ∷ [])

-- `tempstr + std::string(width - tempstr.size(), ' ')`.
unfoldable pub pad : ℕ → Text → Option Text
pad width s = if ltb width (length s) then none else some (s ++ replicate (width - length s) 32)

-- `tempstr.replace(name.find(piece), piece.length(), "")` if the piece is found.
unfoldable pub remove_first : Text → Text → Text
remove_first piece [] = []
remove_first piece (c ∷ cs) =
    if starts_with piece (c ∷ cs) then drop (length piece) (c ∷ cs) else c ∷ remove_first piece cs

-- A name that is too long ends in "... ".
abbrev pub shorten : ℕ → Text → Text
shorten width s = if ltb width (length s) then take (width - 4) s ++ text "... " else s

infixl 5 ◌>>=◌
abbrev ◌>>=◌ : {A B : Type 0} → Option A → (A → Option B) → Option B
none >>= f = none
some a >>= f = f a

abbrev pub concat_all : List (Option Text) → Option Text
concat_all [] = some []
concat_all (none ∷ rest) = none
concat_all (some s ∷ rest) = concat_all rest >>= λ t. some (s ++ t)

-- `Field`.
pub record Field : Type 0 where
  pub label : Text
  pub width : ℕ

-- The fields in the order of their columns.
abbrev pub node_window_fields : List Field
node_window_fields =
    (record { label = []; width = 3 })
    ∷ (record { label = text "ID"; width = 4 })
    ∷ (record { label = text " NodeName "; width = 70 })
    ∷ (record { label = text " Status "; width = 14 })
    ∷ (record { label = text " Ready To Arm "; width = 15 })
    ∷ (record { label = text " Rx "; width = 6 })
    ∷ []

abbrev pub header_text : List Field → Text
header_text [] = []
header_text (f ∷ fs) =
    (if ltb f.width (length f.label)
      then take f.width f.label
      else f.label ++ replicate (f.width - length f.label) 32)
    ++ header_text fs

-- The argument is the width of the main window.
unfoldable pub get_window_header : ℕ → Text
get_window_header main_width =
    let str = header_text node_window_fields in if ltb main_width (length str) then [] else str

module _ ⦃p : Platform⦄ where
  -- The delta that the column Rx shows: at most 99.99.
  abbrev pub shown_delta : NodeData → p.Real
  shown_delta d =
      let max_num = p.add (p.decimal 99 0) (p.decimal 99 2) in
      if p.less max_num d.last_heartbeat_delta then max_num else d.last_heartbeat_delta

  unfoldable pub get_node_info : NodeData → Bool → Option Text
  get_node_info d selected = concat_all (
      some (replicate 3 (if selected then 42 else 32))
      ∷ pad 4 (digits 5 d.id)
      ∷ pad 70 (shorten 70 (remove_first d.host_device d.node_name))
      ∷ pad 14 (pretty d.state)
      ∷ pad 15 d.ready_to_arm
      ∷ pad 6 (p.two_decimals (shown_delta d))
      ∷ [])

  -- `std::sort` by the id.
  abbrev pub insert_by_id : NodeData → List NodeData → List NodeData
  insert_by_id d [] = d ∷ []
  insert_by_id d (e ∷ es) = if ltb e.id d.id then e ∷ insert_by_id d es else d ∷ e ∷ es

  abbrev pub sorted_nodes : List (Text × NodeData) → List NodeData
  sorted_nodes [] = []
  sorted_nodes ((name, d) ∷ rest) = insert_by_id d (sorted_nodes rest)

  -- The loop of `updateWindow`: the rows from the index on, and the name of the selected node.
  unfoldable pub draw_rows : ℕ → ℤ → Text → List NodeData → Option (Text × List (Color × Text))
  draw_rows index selected name [] = some (name, [])
  draw_rows index selected name (d ∷ ds) =
      let here = eqbℤ (pos index) selected in
      let rest =
        draw_rows ((index + 1) % 2 ^ 16) selected (if here then d.node_name else name) ds in
      do
        str ← get_node_info d here
        (name', rows) ← rest
        some (name', (color_of d.state, str) ∷ rows)

  -- The window afterwards, the result, and the rows on the screen.
  unfoldable pub update_window : NodeInfo → Option (NodeInfo × Bool × List (Color × Text))
  update_window w = if not w.shown then some (w, false, []) else (do
    (name, rows) ← draw_rows 0 w.selected w.selected_node (sorted_nodes w.nodes)
    some (record w { selected_node = name }, true, rows))

  unfoldable pub update : p.Real → NodeInfo → Option (NodeInfo × Bool × List (Color × Text))
  update current w = update_window (update_records current w)
