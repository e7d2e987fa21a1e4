-- ===== src/Monitor/NodeInfo/Width.antt =====
-- The rows line up with the header.
use robot_framework_ros.Prelude.{
  ltb, if◌then◌else◌, Bool-cases, length, length-append, take, replicate, length-take, length-drop,
  length-replicate, Text, text, ℕ, zero, suc, ◌+◌, ◌-◌, ◌/◌, ◌%◌, ◌^◌, ◌≤◌, ◌<◌, ◌≡◌, refl, ◌∙◌,
  inl, inr, Bool, Option, none, some, List, [], ◌∷◌, ◌++◌, arith,
}
use robot_framework_ros.Platform.{Platform}
use robot_framework_ros.Messages.{Nodestate}
use robot_framework_ros.Monitor.NodeInfo.{NodeData}
use robot_framework_ros.Monitor.NodeInfo.Row.{
  pad, digits, remove_first, shorten, shown_delta, get_node_info, get_window_header, concat_all,
}
use robot_framework_ros.BaseNode.Pretty.{pretty}

pub length-digits : (f n : ℕ) → length (digits f n) ≤ f
unfolding digits
length-digits zero n = ground arith
length-digits (suc f) n =
    ground (arith, length-digits f (n / 10), length-append (digits f (n / 10)) ((48 + n % 10) ∷ []))

length-digits_small : (n : ℕ) → n < 10000 → length (digits 5 n) ≤ 4
unfolding digits
length-digits_small n h = ground arith

length-remove_first : (piece s : Text) → length (remove_first piece s) ≤ length s
unfolding remove_first
length-remove_first piece [] = ground arith
length-remove_first piece (c ∷ cs) =
    ground (arith, length-remove_first piece cs, length-drop (length piece) (c ∷ cs))

length-cut : (n : ℕ) (s : Text) → length (take n s ++ text "... ") ≤ n + 4
length-cut n s = omega (arith, length-take n s, length-append (take n s) (text "... "))

length-shorten : (s : Text) → length (shorten 70 s) ≤ 70
length-shorten s = elim (Bool-cases (ltb 70 (length s))) [
  | inl e ↦ rw e (length-cut 66 s)
  | inr e ↦ rw e (ground arith)
]

length-pretty : (s : Nodestate) → length (pretty s) ≤ 14
unfolding pretty
length-pretty s = ground arith

-- A column that prints exactly the given number of characters.
abbrev Fills : ℕ → Option Text → Type 0
Fills width column = (t : Text) × (column ≡ some t) × (length t ≡ width)

pub pad-Fills : (width : ℕ) (s : Text) → length s ≤ width → Fills width (pad width s)
unfolding pad
pad-Fills width s h = (
  s ++ replicate (width - length s) 32,
  ground arith,
  omega (
    arith,
    length-append s (replicate (width - length s) 32),
    length-replicate {A = ℕ} (width - length s) 32,
    h,
  ),
)

concat_all-Fills :
    (a b : ℕ) (c : Option Text) (cs : List (Option Text))
    → Fills a c
    → Fills b (concat_all cs)
    → Fills (a + b) (concat_all (c ∷ cs))
concat_all-Fills a b c cs (s, e, l) (t, f, m) =
    (s ++ t, rw (e, f) refl, omega (arith, length-append s t, l, m))

header-length : (n : ℕ) → 112 ≤ n → 112 ≡ length (get_window_header n)
unfolding get_window_header
header-length n h = ground arith

module _ ⦃p : Platform⦄ where
  -- The row of a node with an id below 10000, a ready-to-arm text of at most 15 bytes and a time
  -- since its last heartbeat that prints in at most six bytes is drawn without an exception, and is
  -- exactly as long as the header of a window that is at least 112 wide, whatever the node's name
  -- and its state.
  pub get_node_info-width :
      (d : NodeData) (selected : Bool) (main_width : ℕ)
      → d.id < 10000
      → length d.ready_to_arm ≤ 15
      → length (p.two_decimals (shown_delta d)) ≤ 6
      → 112 ≤ main_width
      → (row : Text) × (get_node_info d selected ≡ some row)
        × (length row ≡ length (get_window_header main_width))
  unfolding get_node_info get_window_header
  get_node_info-width d selected main_width i r x w =
      let name = shorten 70 (remove_first d.host_device d.node_name) in
      let rx : List (Option Text) = pad 6 (p.two_decimals (shown_delta d)) ∷ [] in
      let ready : List (Option Text) = pad 15 d.ready_to_arm ∷ rx in
      let status : List (Option Text) = pad 14 (pretty d.state) ∷ ready in
      let node_name : List (Option Text) = pad 70 name ∷ status in
      let id : List (Option Text) = pad 4 (digits 5 d.id) ∷ node_name in
      let marker : Text = replicate 3 (if selected then 42 else 32) in
      let rx_fills = concat_all-Fills 6 0 _ [] (pad-Fills 6 _ x) ([], refl, refl) in
      let ready_fills = concat_all-Fills 15 6 _ rx (pad-Fills 15 _ r) rx_fills in
      let status_fills =
        concat_all-Fills 14 21 _ ready (pad-Fills 14 _ (length-pretty d.state)) ready_fills in
      let name_fills =
        concat_all-Fills 70 35 _ status
          (pad-Fills 70 name (length-shorten (remove_first d.host_device d.node_name)))
          status_fills in
      let id_fills =
        concat_all-Fills 4 105 _ node_name (pad-Fills 4 _ (length-digits_small d.id i))
          name_fills in
      let (row, e, l) = concat_all-Fills 3 109 (some marker) id (marker, refl, refl) id_fills in
      (row, e, l ∙ header-length main_width w)

  -- A node whose id has five digits has no row: the exception of a string that is too long ends the
  -- program.
  pub get_node_info-throws :
      (d : NodeData) (selected : Bool)
      → 10000 ≤ d.id
      → d.id < 2 ^ 16
      → get_node_info d selected ≡ none
  unfolding get_node_info pad digits
  get_node_info-throws d selected h b = ground arith
