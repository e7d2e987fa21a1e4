-- ===== src/BaseNode/Names/Paths.antt =====
-- The configuration path of a node in a namespace and of a node at the root.
use robot_framework_ros.Prelude.{
  length, Text, text, ℕ, ◌+◌, ◌≡◌, refl, ◌≢◌, some, [], ◌∷◌, ◌++◌, arith,
}
use robot_framework_ros.Platform.{Platform}
use robot_framework_ros.BaseNode.State.{Base}
use robot_framework_ros.BaseNode.Namespace.{slash}
use robot_framework_ros.BaseNode.Names.{substr_from, read_base_nodename, get_config_path}

-- Past a text and the byte behind it.
substr_from_past :
    (a : Text) (c : ℕ) (b : Text) → substr_from (length a + 1) (a ++ (c ∷ b)) ≡ some b
unfolding substr_from
substr_from_past [] c b = refl
substr_from_past (d ∷ a) c b = ground (arith, substr_from_past a c b)

module _ ⦃p : Platform⦄ where
  -- "config/", the three ids and the name, each behind a slash.
  abbrev config_file : Text → Text → Text → Text → Text
  config_file system subsystem process name =
      text "config/"
      ++ (system ++ (text "/" ++ (subsystem ++ (text "/" ++ (process ++ (text "/" ++ name))))))

  -- In a namespace that is not one byte long, the node whose full name is the namespace, a slash
  -- and its own name reads its configuration from the robot's namespace, "config/", the three ids
  -- and its own name, joined by slashes.
  pub get_config_path_named :
      (b : Base) (system subsystem process name : Text)
      → length p.this_node_namespace ≢ 1
      → p.this_node_name ≡ p.this_node_namespace ++ (slash ∷ name)
      → get_config_path b system subsystem process
        ≡ some (b.robot_namespace ++ config_file system subsystem process name)
  unfolding get_config_path read_base_nodename
  get_config_path_named b system subsystem process name long full =
      rw full (ground (arith, substr_from_past p.this_node_namespace slash name))

  -- In a namespace of one byte (the root) the full name, a slash and the own name, is used whole,
  -- so that two slashes stand before the own name.
  pub get_config_path_root :
      (b : Base) (system subsystem process name : Text)
      → length p.this_node_namespace ≡ 1
      → p.this_node_name ≡ slash ∷ name
      → get_config_path b system subsystem process
        ≡ some (b.robot_namespace ++ config_file system subsystem process (slash ∷ name))
  unfolding get_config_path read_base_nodename substr_from
  get_config_path_root b system subsystem process name short full = ground arith
