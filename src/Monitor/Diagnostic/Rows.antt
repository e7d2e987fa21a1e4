-- ===== src/Monitor/Diagnostic/Rows.antt =====
-- What the window writes.
use robot_framework_ros.Prelude.{
  leb, ◌==◌, Bool-cases, Option-cases, length, take, length-take, Text, ℕ, zero, suc, ◌+◌, ◌-◌, ◌≤◌,
  ◌<◌, ◌≡◌, refl, inl, inr, ◌||◌, none, some, List, [], ◌∷◌, arith,
}
use robot_framework_ros.Prelude.Table.{Table, lookup, number_key}
use robot_framework_ros.Platform.{Platform}
use robot_framework_ros.Monitor.NodeInfo.Row.{Color, no_color}
use robot_framework_ros.Monitor.Diagnostic.{
  Definitions, NodeDiagnosticMonitor, trim, entry_text, level_color, row_of, rows_from,
}

-- In a window of width at least 3 a text is cut to less than the width, and is kept if it is
-- shorter already; in a narrower one a text that does not fit throws.
pub trim_lem :
    (width : ℕ) (str : Text)
    → (width ≤ length str → width < 3 → trim width str ≡ none)
      × (length str < width → trim width str ≡ some str)
      × (3 ≤ width
          → (shown : Text) × (trim width str ≡ some shown)
            × (length shown < width)
            × (length shown ≤ length str))
unfolding trim
trim_lem width str = (
  ground arith,
  ground arith,
  λ h. elim (Bool-cases (leb width (length str))) [
    | inl long ↦ (
      take (width - 3) str,
      ground arith,
      ground (arith, length-take (width - 3) str),
      ground (arith, length-take (width - 3) str),
    )
    | inr short ↦ (str, ground arith, ground arith, ground arith)
  ],
)

module _ ⦃p : Platform⦄ where
  row_of-total :
      (s : Definitions) (width kind : ℕ) (m : Table ℕ NodeDiagnosticMonitor)
      → 3 ≤ width
      → (row : Color × Text) × (row_of s width kind m ≡ some row)
  unfolding row_of
  row_of-total s width kind m h = elim (Option-cases (lookup kind m)) [
    | inl missing ↦ ((no_color, s.pretty_type kind), ground arith)
    | inr (d, known) ↦
        let (str, e, l, g) = (trim_lem width (entry_text s kind d.node_diagnostic)).2 h in
        ((level_color d.node_diagnostic.level, str), rw (known, row_of, e) refl)
  ]

  -- In a window of width at least 3, whatever the diagnostics are, the rows are written without an
  -- exception, and there are at most as many as types that the loop goes over.
  pub rows_from-total :
      (s : Definitions) (width count kind : ℕ) (m : Table ℕ NodeDiagnosticMonitor)
      → 3 ≤ width
      → (rows : List (Color × Text)) × (rows_from s width count kind m ≡ some rows)
        × (length rows ≤ count)
  unfolding rows_from
  rows_from-total s width zero kind m h = ([], refl, ground arith)
  rows_from-total s width (suc count) kind m h =
      let (rows, e, l) = rows_from-total s width count (kind + 1) m h in
      let (row, f) = row_of-total s width kind m h in
      elim (Bool-cases ((kind == 0) || (kind == s.unknown_type) || (kind == s.end_of_list))) [
        | inl passed ↦ (rows, rw (passed, rows_from) e, ground arith)
        | inr written ↦ (row ∷ rows, rw (written, rows_from, f, e) refl, ground arith)
      ]
