-- ===== src/Monitor/NodeInfo/View.antt =====
-- The node window as a map from names to what is known of them. The view forgets the order of the
-- table, the ids, the count, the selection and the focus.
use robot_framework_ros.Prelude.{
  if◌then◌else◌, length, Text, text, text_eq, text_eq_iff, ℕ, ◌≡◌, refl, ap, ◌∙◌, Option, none,
  some, List, [], ◌∷◌, arith,
}
use mathlib.Core.Path.{fun_ext}
use robot_framework_ros.Prelude.Table.{
  lookup, lookup-insert, lookup-modify, lookup-map_values, text_key,
}
use robot_framework_ros.Platform.{Platform}
use robot_framework_ros.Messages.{Nodestate, Heartbeat, ReadyToArm, state_unknown, state_starting}
use robot_framework_ros.Monitor.NodeInfo.{
  NodeData, NodeInfo, fast, new_node_data, check_heartbeat, take_heartbeat, take_ready, ready_text,
  update_records, new_heartbeat_msg, new_ready_to_arm_msg, insert_node, new_key_event, set_focus,
}
use robot_framework_ros.Monitor.NodeInfo.Records.{
  Event, heartbeat_came, ready_came, time_passed, key_pressed, focus_set, handle, handle_all,
}

module _ ⦃p : Platform⦄ where
  -- What is known of a node.
  pub record Entry : Type 0 where
    pub state : Nodestate
    pub host_device : Text
    pub base_node_name : Text
    pub ready_to_arm : Text
    pub last_heard : p.Real
    pub silence : p.Real

  -- The time of the last update, and what is known of each name.
  abbrev pub View : Type 0
  View = p.Real × (Text → Option Entry)

  abbrev pub first_entry : Text → Text → Entry
  first_entry device base_node_name = record {
    state = record { state = state_starting };
    host_device = device;
    base_node_name = base_node_name;
    ready_to_arm = text "UNKNOWN";
    last_heard = p.decimal 0 1;
    silence = p.decimal 0 1;
  }

  -- The first message of a node only makes it known.
  abbrev pub heard : Heartbeat → p.Real → Option Entry → Entry
  heard msg t none = first_entry msg.host_name msg.base_node_name
  heard msg t (some e) = record e {
    state = msg.node_state;
    host_device = msg.host_name;
    base_node_name = msg.base_node_name;
    last_heard = t;
    silence = p.decimal 0 1;
  }

  abbrev pub told_ready : ReadyToArm → p.Real → Option Entry → Entry
  told_ready msg t none = first_entry [] []
  told_ready msg t (some e) = record e {
    ready_to_arm = ready_text msg;
    last_heard = t;
    silence = p.decimal 0 1;
  }

  -- A node that was silent for more than five seconds is lost.
  abbrev pub aged : p.Real → Option Entry → Option Entry
  aged t none = none
  aged t (some e) =
      let silence = p.sub t e.last_heard in
      some (
        if p.less (p.decimal 50 1) silence
        then record e {
          state = record { state = state_unknown };
          ready_to_arm = text "UNKNOWN";
          silence = silence;
        }
        else record e { silence = silence })

  abbrev pub change : Text → (Option Entry → Entry) → (Text → Option Entry) → Text → Option Entry
  change name f v x = if text_eq name x then some (f (v x)) else v x

  unfoldable pub replay : List Event → View → View
  replay [] v = v
  replay (heartbeat_came msg ∷ es) (t, v) = replay es (t, change msg.node_name (heard msg t) v)
  replay (ready_came msg ∷ es) (t, v) = replay es (t, change msg.node_name (told_ready msg t) v)
  replay (time_passed t ∷ es) (_, v) = replay es (t, λ x. aged t (v x))
  replay (key_pressed key ∷ es) v = replay es v
  replay (focus_set focus ∷ es) v = replay es v

  abbrev pub entry_of : NodeData → Entry
  entry_of d = record {
    state = d.state;
    host_device = d.host_device;
    base_node_name = d.base_node_name;
    ready_to_arm = d.ready_to_arm;
    last_heard = d.last_heartbeat;
    silence = d.last_heartbeat_delta;
  }

  abbrev pub known : NodeInfo → Text → Option Entry
  known w x = elim (lookup x w.nodes) [ none ↦ none | some d ↦ some (entry_of d) ]

  abbrev pub view : NodeInfo → View
  view w = (w.current_time, known w)

  pub known-heartbeat :
      (msg : Heartbeat) (w : NodeInfo) (x : Text)
      → known (new_heartbeat_msg msg w) x
        ≡ change msg.node_name (heard msg w.current_time) (known w) x
  unfolding new_heartbeat_msg insert_node
  known-heartbeat msg w x = ground (
    arith,
    lookup-modify msg.node_name x (take_heartbeat msg w.current_time) w.nodes,
    lookup-insert msg.node_name x
        (new_node_data (length w.nodes) fast msg.host_name msg.base_node_name msg.node_name)
        w.nodes,
    text_eq_iff msg.node_name x,
    ap (λ y. lookup y w.nodes) {x = msg.node_name} {y = x},
  )

  pub known-ready_to_arm :
      (msg : ReadyToArm) (w : NodeInfo) (x : Text)
      → known (new_ready_to_arm_msg msg w) x
        ≡ change msg.node_name (told_ready msg w.current_time) (known w) x
  unfolding new_ready_to_arm_msg insert_node
  known-ready_to_arm msg w x = ground (
    arith,
    lookup-modify msg.node_name x (take_ready msg w.current_time) w.nodes,
    lookup-insert msg.node_name x (new_node_data (length w.nodes) fast [] [] msg.node_name) w.nodes,
    text_eq_iff msg.node_name x,
    ap (λ y. lookup y w.nodes) {x = msg.node_name} {y = x},
  )

  pub known-update :
      (t : p.Real) (w : NodeInfo) (x : Text) → known (update_records t w) x ≡ aged t (known w x)
  unfolding update_records check_heartbeat
  known-update t w x = ground (arith, lookup-map_values (check_heartbeat t) x w.nodes)

  -- The same time, and something else known of names.
  seen :
      (t : p.Real) (u v : Text → Option Entry)
      → ((x : Text) → u x ≡ v x)
      → ◌≡◌ {A = View} (t, u) (t, v)
  seen t u v h = ap (λ f. (t, f)) (fun_ext h)

  pub key-view : (key : ℕ) (w : NodeInfo) → view (new_key_event key w).0 ≡ view w
  unfolding new_key_event
  key-view key w = ground arith

  time-heartbeat :
      (msg : Heartbeat) (w : NodeInfo) → (new_heartbeat_msg msg w).current_time ≡ w.current_time
  unfolding new_heartbeat_msg insert_node
  time-heartbeat msg w = ground arith

  time-ready_to_arm :
      (msg : ReadyToArm) (w : NodeInfo) → (new_ready_to_arm_msg msg w).current_time ≡ w.current_time
  unfolding new_ready_to_arm_msg insert_node
  time-ready_to_arm msg w = ground arith

  -- After any events the window is, as a map from names to what is known of them, the replay of the
  -- events on the map: a message makes its node known, or changes what is known of that node alone;
  -- an update ages all; keys and focus change nothing known.
  pub view-handle_all :
      (es : List Event) (w : NodeInfo) → view (handle_all es w) ≡ replay es (view w)
  unfolding handle_all handle replay update_records set_focus
  view-handle_all [] w = refl
  view-handle_all (heartbeat_came msg ∷ es) w =
      view-handle_all es (new_heartbeat_msg msg w)
      ∙ ap (replay es) (rw (time-heartbeat msg w) (seen w.current_time _ _ (known-heartbeat msg w)))
  view-handle_all (ready_came msg ∷ es) w =
      view-handle_all es (new_ready_to_arm_msg msg w)
      ∙ ap (replay es)
          (rw (time-ready_to_arm msg w) (seen w.current_time _ _ (known-ready_to_arm msg w)))
  view-handle_all (time_passed t ∷ es) w =
      view-handle_all es (update_records t w) ∙ ap (replay es) (seen t _ _ (known-update t w))
  view-handle_all (key_pressed key ∷ es) w =
      view-handle_all es (new_key_event key w).0 ∙ ap (replay es) (key-view key w)
  view-handle_all (focus_set focus ∷ es) w = view-handle_all es (set_focus focus w)
