-- ===== src/Monitor/NodeInfo/Records.antt =====
-- The records of the window, over all that can happen to it.
use robot_framework_ros.Prelude.{
  if◌then◌else◌, Option-cases, length, Text, text_eq, text_eq_iff, ℕ, ◌%◌, ◌^◌, ◌≤◌, ◌<◌, ◌≡◌, refl,
  sym, ap, ◌∙◌, inl, inr, Bool, Option, none, some, List, [], ◌∷◌, arith,
}
use robot_framework_ros.Prelude.Table.{
  Table, lookup, insert, modify, lookup-insert, lookup-modify, lookup-map_values, length-insert_new,
  length-modify, length-map_values, text_key,
}
use mathlib.Core.Path.{subst}
use robot_framework_ros.Platform.{Platform}
use robot_framework_ros.Messages.{Heartbeat, ReadyToArm}
use robot_framework_ros.Monitor.Selection.{update_record_count}
use robot_framework_ros.Monitor.NodeInfo.{
  NodeData, NodeInfo, NodeType, fast, new_node_data, new_node_info, check_heartbeat, take_heartbeat,
  take_ready, update_records, new_heartbeat_msg, new_ready_to_arm_msg, insert_node, new_key_event,
  set_focus,
}

module _ ⦃p : Platform⦄ where
  -- What can happen to the window.
  pub data Event : Type 0 where
    heartbeat_came : Heartbeat → Event
    ready_came : ReadyToArm → Event
    time_passed : p.Real → Event
    key_pressed : ℕ → Event
    focus_set : Bool → Event

  unfoldable pub handle : Event → NodeInfo → NodeInfo
  handle (heartbeat_came msg) w = new_heartbeat_msg msg w
  handle (ready_came msg) w = new_ready_to_arm_msg msg w
  handle (time_passed t) w = update_records t w
  handle (key_pressed k) w = (new_key_event k w).0
  handle (focus_set b) w = set_focus b w

  unfoldable pub handle_all : List Event → NodeInfo → NodeInfo
  handle_all [] w = w
  handle_all (e ∷ es) w = handle_all es (handle e w)

  -- The id of a node in a table.
  abbrev pub id_in : Text → Table Text NodeData → Option ℕ
  id_in name m = elim (lookup name m) [ none ↦ none | some d ↦ some d.id ]

  -- Every id is below the number of nodes, and no two nodes have the same one.
  pub record HasIds (m : Table Text NodeData) : Type 0 where
    pub below : (a : Text) (i : ℕ) → id_in a m ≡ some i → i < length m
    pub apart : (a b : Text) (i : ℕ) → id_in a m ≡ some i → id_in b m ≡ some i → a ≡ b

  pub record IsConsistent (w : NodeInfo) : Type 0 where
    pub count : w.record_count ≡ length w.nodes % 2 ^ 16
    pub ids : length w.nodes ≤ 2 ^ 16 → HasIds w.nodes

  -- A table with the same ids.
  same_ids :
      (m m' : Table Text NodeData)
      → length m' ≡ length m
      → ((a : Text) → id_in a m' ≡ id_in a m)
      → HasIds m
      → HasIds m'
  same_ids m m' l s h = record {
    below = λ a i e. subst (λ n. i < n) (sym l) (h.below a i (sym (s a) ∙ e));
    apart = λ a b i e f. h.apart a b i (sym (s a) ∙ e) (sym (s b) ∙ f);
  }

  pub same_ids-IsConsistent :
      (w w' : NodeInfo)
      → w'.record_count ≡ w.record_count
      → length w'.nodes ≡ length w.nodes
      → ((a : Text) → id_in a w'.nodes ≡ id_in a w.nodes)
      → IsConsistent w
      → IsConsistent w'
  same_ids-IsConsistent w w' c l s h = record {
    count = c ∙ h.count ∙ ap (λ n. n % 2 ^ 16) (sym l);
    ids = λ b. same_ids w.nodes w'.nodes l s (h.ids (omega (arith, l, b)));
  }

  id_in-modify :
      (x a : Text) (f : NodeData → NodeData) (m : Table Text NodeData)
      → ((d : NodeData) → (f d).id ≡ d.id)
      → id_in a (modify x f m) ≡ id_in a m
  id_in-modify x a f m h = elim (Option-cases (lookup a m)) [
    | inl e ↦ ground (arith, lookup-modify x a f m)
    | inr (d, e) ↦ ground (arith, lookup-modify x a f m, h d)
  ]

  id_in-insert :
      (x a : Text) (d : NodeData) (m : Table Text NodeData)
      → id_in a (insert x d m) ≡ (if text_eq x a then some d.id else id_in a m)
  id_in-insert x a d m = ground (arith, lookup-insert x a d m)

  insert_node-IsConsistent :
      (kind : NodeType) (device base_node_name name : Text) (w : NodeInfo)
      → lookup name w.nodes ≡ none
      → IsConsistent w
      → IsConsistent (insert_node kind device base_node_name name w).0
  unfolding insert_node update_record_count
  insert_node-IsConsistent kind device base_node_name name w e h =
      let d = new_node_data (length w.nodes) kind device base_node_name name in
      let longer = length-insert_new name d w.nodes e in
      record {
        count = refl;
        ids = λ b.
            let old = h.ids (omega (arith, longer, b)) in
            record {
              below =
                  λ a i g. ground (arith, longer, b, id_in-insert name a d w.nodes, old.below a i);
              apart = λ a c i g k. ground (
                arith,
                longer,
                b,
                id_in-insert name a d w.nodes,
                id_in-insert name c d w.nodes,
                old.below a i,
                old.below c i,
                old.apart a c i,
                text_eq_iff name a,
                text_eq_iff name c,
              );
            };
      }

  pub handle-IsConsistent : (e : Event) (w : NodeInfo) → IsConsistent w → IsConsistent (handle e w)
  unfolding handle new_heartbeat_msg new_ready_to_arm_msg update_records check_heartbeat
      new_key_event set_focus
  handle-IsConsistent (heartbeat_came msg) w h =
      elim (Option-cases (lookup msg.node_name w.nodes)) [
        | inl e ↦
            rw (e, new_heartbeat_msg)
              (insert_node-IsConsistent fast msg.host_name msg.base_node_name msg.node_name w e h)
        | inr (d, e) ↦
            rw (e, new_heartbeat_msg)
              (same_ids-IsConsistent w _ refl (length-modify msg.node_name _ w.nodes)
                (λ a.
                  id_in-modify msg.node_name a (take_heartbeat msg w.current_time) w.nodes
                    (λ d. refl))
                h)
      ]
  handle-IsConsistent (ready_came msg) w h = elim (Option-cases (lookup msg.node_name w.nodes)) [
    | inl e ↦ rw (e, new_ready_to_arm_msg) (insert_node-IsConsistent fast [] [] msg.node_name w e h)
    | inr (d, e) ↦
        rw (e, new_ready_to_arm_msg)
          (same_ids-IsConsistent w _ refl (length-modify msg.node_name _ w.nodes)
            (λ a. id_in-modify msg.node_name a (take_ready msg w.current_time) w.nodes (λ d. refl))
            h)
  ]
  handle-IsConsistent (time_passed t) w h =
      same_ids-IsConsistent w _ refl (length-map_values (check_heartbeat t) w.nodes)
        (λ a. ground (arith, lookup-map_values (check_heartbeat t) a w.nodes)) h
  handle-IsConsistent (key_pressed k) w h =
      same_ids-IsConsistent w _ (ground arith) (ground arith) (λ a. ground arith) h
  handle-IsConsistent (focus_set b) w h = same_ids-IsConsistent w _ refl refl (λ a. refl) h

  handle_all-keeps :
      (es : List Event) (w : NodeInfo) → IsConsistent w → IsConsistent (handle_all es w)
  unfolding handle_all
  handle_all-keeps [] w h = h
  handle_all-keeps (e ∷ es) w h = handle_all-keeps es (handle e w) (handle-IsConsistent e w h)

  -- After any messages, updates, keys and changes of focus, the record count of a new window is the
  -- number of its nodes modulo 2^16, and while there are at most 65536 nodes their ids are below
  -- that number and no two nodes share one.
  pub handle_all-IsConsistent :
      (shown : Bool) (es : List Event) → IsConsistent (handle_all es (new_node_info shown))
  unfolding new_node_info lookup
  handle_all-IsConsistent shown es = handle_all-keeps es (new_node_info shown) (record {
    count = refl;
    ids = λ b. record { below = λ a i e. ground arith; apart = λ a b i e f. ground arith };
  })
