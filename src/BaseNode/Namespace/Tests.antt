-- ===== src/BaseNode/Namespace/Tests.antt =====
-- Namespaces at concrete inputs.
use robot_framework_ros.Prelude.{text, ◌≡◌, refl, none, arith}
use robot_framework_ros.BaseNode.Namespace.{
  validate_robotnamespace, remove_duplicates, find_duplicate, erase,
}
use robot_framework_ros.BaseNode.Namespace.Squeeze.{squeeze}
use robot_framework_ros.BaseNode.Namespace.Termination.{remove_duplicates-stops}
use robot_framework_ros.BaseNode.Namespace.Laws.{validate_robotnamespace_lem}

empty_is_root : validate_robotnamespace (text "") ≡ text "/"
unfolding validate_robotnamespace find_duplicate erase
empty_is_root = refl

runs_are_cut : validate_robotnamespace (text "test//a///b") ≡ text "/test/a/b/"
unfolding validate_robotnamespace find_duplicate erase
runs_are_cut = refl

validate_robotnamespace_lem_example : validate_robotnamespace (text "//a//b") ≡ text "/a/b/"
unfolding squeeze
validate_robotnamespace_lem_example = validate_robotnamespace_lem (text "//a//b")

remove_duplicates-stops_example :
    (find_duplicate (remove_duplicates 7 (text "//a///b")) ≡ none)
    × (remove_duplicates 12 (text "//a///b") ≡ remove_duplicates 7 (text "//a///b"))
remove_duplicates-stops_example = remove_duplicates-stops 7 5 (text "//a///b") (omega arith)
