-- ===== src/Monitor/Network/Subscriptions.antt =====
-- Each topic is subscribed once, however often the network is scanned.
use robot_framework_ros.Prelude.{
  Bool-cases, Text, text_eq, text_eq_iff, ◌≡◌, refl, sym, ap, ◌∙◌, inl, inr, true, false, ◌||◌,
  List, [], ◌∷◌, ◌++◌, arith,
}
use mathlib.Core.Path.{subst}
use mathlib.Core.List.{append_assoc, append-nil}
use robot_framework_ros.Monitor.Network.{
  TopicInfo, Network, new_network, found_it, add_topics, topics_of, update_monitor_list,
  rescan_ros_network, heartbeat_type, ready_to_arm_type, diagnostic_type,
}

-- No topic stands twice in the list.
abbrev pub Distinct : List Text → Type 0
Distinct [] = Unit {0}
Distinct (t ∷ ts) = (found_it t ts ≡ false) × Distinct ts

found_it-append :
    (x t : Text) (ms : List Text) → found_it x (ms ++ (t ∷ [])) ≡ (found_it x ms || text_eq t x)
unfolding found_it
found_it-append x t [] = ground arith
found_it-append x t (m ∷ ms) = ground (arith, found_it-append x t ms)

Distinct-append :
    (t : Text) (ms : List Text) → Distinct ms → found_it t ms ≡ false → Distinct (ms ++ (t ∷ []))
unfolding found_it
Distinct-append t [] d h = (refl, tt)
Distinct-append t (m ∷ ms) d h = (
  ground (arith, found_it-append m t ms, text_eq_iff m t, text_eq_iff t m),
  Distinct-append t ms d.1 (ground arith),
)

-- The topics to subscribe are those that were added at the end of the list, and they are new.
pub add_topics_lem :
    (ts ms fresh base : List Text)
    → Distinct ms
    → ms ≡ base ++ fresh
    → let (ms', fresh') = add_topics ts (ms, fresh) in Distinct ms' × (ms' ≡ base ++ fresh')
unfolding add_topics
add_topics_lem [] ms fresh base d e = (d, e)
add_topics_lem (t ∷ ts) ms fresh base d e = elim (Bool-cases (found_it t ms)) [
  | inl old ↦ rw (old, add_topics) (add_topics_lem ts ms fresh base d e)
  | inr new ↦
      rw (new, add_topics)
        (add_topics_lem ts (ms ++ (t ∷ [])) (fresh ++ (t ∷ [])) base (Distinct-append t ms d new)
          (ap (λ l. l ++ (t ∷ [])) e ∙ append_assoc base fresh (t ∷ [])))
]

found_it-known :
    (x t : Text) (ts ms : List Text)
    → found_it t ms ≡ true
    → (found_it x ms || found_it x ts) ≡ (found_it x ms || found_it x (t ∷ ts))
unfolding found_it
found_it-known x t ts ms h = elim (Bool-cases (text_eq t x)) [
  | inl same ↦ ground (arith, subst (λ y. found_it y ms ≡ true) ((text_eq_iff t x).0 same) h)
  | inr other ↦ ground arith
]

-- Afterwards a topic is monitored exactly when it was, or is among those given.
pub found_it-add_topics :
    (x : Text) (ts ms fresh : List Text)
    → found_it x (add_topics ts (ms, fresh)).0 ≡ (found_it x ms || found_it x ts)
unfolding add_topics found_it
found_it-add_topics x [] ms fresh = ground arith
found_it-add_topics x (t ∷ ts) ms fresh = elim (Bool-cases (found_it t ms)) [
  | inl old ↦
      rw (old, add_topics) (found_it-add_topics x ts ms fresh ∙ found_it-known x t ts ms old)
  | inr new ↦
      rw (new, add_topics)
        (ground (
          arith,
          found_it-add_topics x ts (ms ++ (t ∷ [])) (fresh ++ (t ∷ [])),
          found_it-append x t ms,
        ))
]

-- Each kind has one subscription for each monitored topic, and no topic twice.
pub record IsSubscribed (w : Network) : Type 0 where
  pub heartbeat : Distinct w.monitored_heartbeat × (w.heartbeat_subs ≡ w.monitored_heartbeat)
  pub ready : Distinct w.monitored_ready_to_arm × (w.ready_to_arm_subs ≡ w.monitored_ready_to_arm)
  pub diagnostic : Distinct w.monitored_diagnostic × (w.diagnostic_subs ≡ w.monitored_diagnostic)

grown :
    (ts ms subs : List Text)
    → Distinct ms × (subs ≡ ms)
    → let (ms', fresh) = add_topics ts (ms, []) in Distinct ms' × (subs ++ fresh ≡ ms')
grown ts ms subs (d, e) =
    let (d', e') = add_topics_lem ts ms [] ms d (sym (append-nil ms)) in
    (d', ap (λ l. l ++ (add_topics ts (ms, [])).1) e ∙ sym e')

pub update_monitor_list-IsSubscribed :
    (h r d : List Text) (w : Network) → IsSubscribed w → IsSubscribed (update_monitor_list h r d w)
unfolding update_monitor_list
update_monitor_list-IsSubscribed h r d w i = record {
  heartbeat = grown h w.monitored_heartbeat w.heartbeat_subs i.heartbeat;
  ready = grown r w.monitored_ready_to_arm w.ready_to_arm_subs i.ready;
  diagnostic = grown d w.monitored_diagnostic w.diagnostic_subs i.diagnostic;
}

-- One scan after the other, with what the master answers to each.
unfoldable pub rescans : Text → List (List TopicInfo) → Network → Network
rescans ns [] w = w
rescans ns (topics ∷ rest) w = rescans ns rest (rescan_ros_network ns topics w)

rescans-keeps :
    (ns : Text) (scans : List (List TopicInfo)) (w : Network)
    → IsSubscribed w
    → IsSubscribed (rescans ns scans w)
unfolding rescans rescan_ros_network
rescans-keeps ns [] w i = i
rescans-keeps ns (topics ∷ rest) w i =
    rescans-keeps ns rest (rescan_ros_network ns topics w)
      (update_monitor_list-IsSubscribed _ _ _ w i)

-- After any scans of a new monitor, whatever the master answered, no topic is monitored twice, and
-- for each of the three kinds the subscriptions are exactly the monitored topics, in their order.
pub rescans-IsSubscribed :
    (ns : Text) (scans : List (List TopicInfo)) → IsSubscribed (rescans ns scans new_network)
unfolding new_network
rescans-IsSubscribed ns scans =
    rescans-keeps ns scans new_network
      (record { heartbeat = (tt, refl); ready = (tt, refl); diagnostic = (tt, refl) })

-- After a scan a heartbeat topic, a ready-to-arm topic or a diagnostic topic is monitored exactly
-- when it was before, or the master names it with that type in the robot's namespace.
pub rescan_ros_network-found_it :
    (ns x : Text) (topics : List TopicInfo) (w : Network)
    → let w' = rescan_ros_network ns topics w in
      (found_it x w'.monitored_heartbeat
        ≡ (found_it x w.monitored_heartbeat || found_it x (topics_of ns heartbeat_type topics)))
      × (found_it x w'.monitored_ready_to_arm ≡ (
          found_it x w.monitored_ready_to_arm
          || found_it x (topics_of ns ready_to_arm_type topics)))
      × (found_it x w'.monitored_diagnostic
          ≡ (found_it x w.monitored_diagnostic || found_it x (topics_of ns diagnostic_type topics)))
unfolding rescan_ros_network update_monitor_list
rescan_ros_network-found_it ns x topics w = (
  found_it-add_topics x _ w.monitored_heartbeat [],
  found_it-add_topics x _ w.monitored_ready_to_arm [],
  found_it-add_topics x _ w.monitored_diagnostic [],
)
