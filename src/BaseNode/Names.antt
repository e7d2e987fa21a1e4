-- ===== src/BaseNode/Names.antt =====
-- `read_robotnamespace`, `read_base_nodename` and `get_config_path` of core/BaseNode/BaseNode.cpp.
pub mod Paths
use robot_framework_ros.Prelude.{
  ◌==◌, if◌then◌else◌, length, Text, text, ℕ, zero, suc, ◌+◌, Option, none, some, [], ◌∷◌, ◌++◌,
}
use robot_framework_ros.Platform.{Platform}
use robot_framework_ros.BaseNode.State.{Base}
use robot_framework_ros.BaseNode.Namespace.{validate_robotnamespace}

-- `s.substr(from)`; `none` is the exception `std::out_of_range`.
pub substr_from : ℕ → Text → Option Text
substr_from zero s = some s
substr_from (suc n) [] = none
substr_from (suc n) (c ∷ cs) = substr_from n cs

module _ ⦃p : Platform⦄ where
  unfoldable pub read_robotnamespace : Text
  read_robotnamespace = elim (p.param_text (p.unresolved_namespace ++ text "/robot_namespace")) [
    | none ↦ validate_robotnamespace (text "/")
    | some s ↦ validate_robotnamespace s
  ]

  unfoldable pub read_base_nodename : Option Text
  unfolding substr_from
  read_base_nodename =
      let n = length p.this_node_namespace in
      substr_from (if n == 1 then 0 else n + 1) p.this_node_name

  unfoldable pub get_config_path : Base → Text → Text → Text → Option Text
  get_config_path b system subsystem process = elim read_base_nodename [
    | none ↦ none
    | some name ↦ some (
        b.robot_namespace
        ++ (text "config/"
            ++ (system
                ++ (text "/" ++ (subsystem ++ (text "/" ++ (process ++ (text "/" ++ name))))))))
  ]
