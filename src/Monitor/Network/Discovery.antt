-- ===== src/Monitor/Network/Discovery.antt =====
-- A node that starts, and the system monitor that finds it.
use robot_framework_ros.Prelude.{
  if◌then◌else◌, Bool-cases, Option-cases, Text, text, text_eq, text_eq_iff, starts_with, ℕ, ◌≡◌,
  refl, ap, ◌∙◌, inl, inr, Bool, true, false, ◌&&◌, ◌||◌, List, [], ◌∷◌, ◌++◌, arith,
}
use mathlib.Core.Path.{subst}
use robot_framework_ros.Platform.{Platform}
use robot_framework_ros.Messages.{state_initializing}
use robot_framework_ros.BaseNode.State.{
  Base, Derived, Node, Output, advertised, emit, logger_started,
}
use robot_framework_ros.BaseNode.Init.{base_init, finish_init, advertise_all, logger_level}
use robot_framework_ros.BaseNode.Lifecycle.{request_node_statechange}
use robot_framework_ros.BaseNode.Run.Outbox.{All}
use robot_framework_ros.Monitor.Network.{
  TopicInfo, Network, found_it, topics_of, rescan_ros_network, heartbeat_type, ready_to_arm_type,
  diagnostic_type,
}
use robot_framework_ros.Monitor.Network.Subscriptions.{
  IsSubscribed, rescan_ros_network-found_it, update_monitor_list-IsSubscribed,
}

-- The master names the topic with the type.
unfoldable pub is_named : Text → Text → List TopicInfo → Bool
is_named datatype topic [] = false
is_named datatype topic (info ∷ rest) =
    (text_eq info.datatype datatype && text_eq info.name topic) || is_named datatype topic rest

starts_with-append : (ns x y : Text) → starts_with ns x ≡ true → starts_with ns (x ++ y) ≡ true
starts_with-append [] x y h = refl
starts_with-append (c ∷ ns) [] y h = absurd (ground arith)
starts_with-append (c ∷ ns) (d ∷ x) y h = ground (arith, starts_with-append ns x y)

found_it-topics_of :
    (ns datatype topic : Text) (topics : List TopicInfo)
    → starts_with ns topic ≡ true
    → is_named datatype topic topics ≡ true
    → found_it topic (topics_of ns datatype topics) ≡ true
unfolding found_it topics_of is_named
found_it-topics_of ns datatype topic [] s h = h
found_it-topics_of ns datatype topic (info ∷ rest) s h = ground (
  arith,
  h,
  s,
  text_eq_iff info.name topic,
  ap (λ y. starts_with ns y) {x = info.name} {y = topic},
  found_it-topics_of ns datatype topic rest s,
)

All-last :
    {A : Type 0} (G : A → Type 0) (xs : List A) (x : A) → All G (xs ++ (x ∷ [])) → All G xs × G x
All-last G [] x h = (tt, h.0)
All-last G (y ∷ ys) x h = let (g, l) = All-last G ys x h.1 in ((h.0, g), l)

module _ ⦃p : Platform⦄ {E : Type 0} where
  -- The master knows of what the node advertised.
  abbrev pub IsNamed : List TopicInfo → Output E → Type 0
  IsNamed topics (advertised datatype topic) = is_named datatype topic topics ≡ true
  IsNamed topics _ = Unit

module _ ⦃p : Platform⦄ where
  -- The topics of a node, with `ready_to_arm` if it is published.
  abbrev KnowsNode : List TopicInfo → Text → Bool → Type 0
  KnowsNode topics name publish =
      (is_named heartbeat_type (name ++ text "/heartbeat") topics ≡ true)
      × (is_named diagnostic_type (name ++ text "/diagnostic") topics ≡ true)
      × (publish ≡ true → is_named ready_to_arm_type (name ++ text "/ready_to_arm") topics ≡ true)

  request-publish :
      (b : Base) (state : ℕ)
      → (request_node_statechange b state false).0.ready_to_arm_publish_enabled
        ≡ b.ready_to_arm_publish_enabled
  unfolding request_node_statechange
  request-publish b state = ground arith

  module _ {U E : Type 0} (topics : List TopicInfo) where
    abbrev AllNamed : Derived U E → Type 0
    AllNamed d = All (IsNamed topics) d.outbox

    maybe_advertised :
        (on : Bool) (datatype topic : Text) (d : Derived U E)
        → AllNamed (if on then emit (advertised datatype topic) d else d)
        → AllNamed d × (on ≡ true → is_named datatype topic topics ≡ true)
    maybe_advertised true datatype topic d h =
        let (g, l) = All-last (IsNamed topics) d.outbox (advertised datatype topic) h in (g, λ _. l)
    maybe_advertised false datatype topic d h = (h, λ e. absurd (ground arith))

    finish_init-advertised :
        (level : ℕ) (b : Base) (d : Derived U E)
        → AllNamed (finish_init level b d).derived
        → KnowsNode topics b.node_name b.ready_to_arm_publish_enabled
    unfolding finish_init advertise_all
    finish_init-advertised level b d h =
        let started = emit (logger_started level b.node_name) d in
        let heartbeat = advertised heartbeat_type (b.node_name ++ text "/heartbeat") in
        let diagnostic = advertised diagnostic_type (b.node_name ++ text "/diagnostic") in
        let beating : Derived U E = emit heartbeat started in
        let (g, ready) =
          maybe_advertised b.ready_to_arm_publish_enabled ready_to_arm_type
            (b.node_name ++ text "/ready_to_arm") (emit diagnostic beating) h in
        let (k, second) = All-last (IsNamed topics) beating.outbox diagnostic g in
        (((All-last (IsNamed topics) started.outbox heartbeat k).1), second, ready)

    base_init-finishes :
        (n : Node U E)
        → (base_init n).1 ≡ true
        → (level : ℕ) × (b : Base) × ((base_init n).0 ≡ finish_init level b n.derived)
          × (b.node_name ≡ p.this_node_name)
          × (b.ready_to_arm_publish_enabled ≡ n.base.ready_to_arm_publish_enabled)
    unfolding base_init
    base_init-finishes n ok =
        let r = request_node_statechange n.base state_initializing false in
        elim (Bool-cases r.1) [
          | inl good ↦ elim (Option-cases (logger_level p.this_node_name)) [
            | inl l ↦ absurd (ground arith)
            | inr (level, l) ↦
                rw (good, l)
                  (
                    level,
                    record (r.0) {
                      node_namespace = p.this_node_namespace;
                      node_name = p.this_node_name;
                    },
                    refl,
                    refl,
                    request-publish n.base state_initializing,
                  )
          ]
          | inr refused ↦ absurd (ground arith)
        ]

    base_init-advertised :
        (n : Node U E)
        → (base_init n).1 ≡ true
        → AllNamed (base_init n).0.derived
        → KnowsNode topics p.this_node_name n.base.ready_to_arm_publish_enabled
    base_init-advertised n ok h =
        let (level, b, e, name, publish) = base_init-finishes n ok in
        subst (λ on. KnowsNode topics p.this_node_name on) publish
          (subst (λ x. KnowsNode topics x b.ready_to_arm_publish_enabled) name
            (finish_init-advertised level b n.derived
              (subst (λ (m : Node U E). AllNamed m.derived) e h)))

-- A topic that the master names in the namespace is subscribed after a scan.
subscribed_to :
    (x : Text) (subs monitored old found : List Text)
    → subs ≡ monitored
    → found_it x monitored ≡ (found_it x old || found_it x found)
    → found_it x found ≡ true
    → found_it x subs ≡ true
subscribed_to x subs monitored old found e f h = ap (found_it x) e ∙ ground (arith, f, h)

-- When `base_init` of a node succeeds whose name begins with the monitor's namespace, and the master
-- then names all that the node advertised, one scan is enough: a monitor that has subscribed to what
-- it monitors has then subscribed to the node's heartbeat topic, to its diagnostic topic, and to its
-- ready-to-arm topic if the node publishes that.
pub discovers :
    {U E : Type 0} ⦃p : Platform⦄ (n : Node U E) (ns : Text) (topics : List TopicInfo) (w : Network)
    → IsSubscribed w
    → starts_with ns p.this_node_name ≡ true
    → (base_init n).1 ≡ true
    → All (IsNamed topics) (base_init n).0.derived.outbox
    → let w' = rescan_ros_network ns topics w in
      let name = p.this_node_name in
      (found_it (name ++ text "/heartbeat") w'.heartbeat_subs ≡ true)
      × (found_it (name ++ text "/diagnostic") w'.diagnostic_subs ≡ true)
      × (n.base.ready_to_arm_publish_enabled ≡ true
          → found_it (name ++ text "/ready_to_arm") w'.ready_to_arm_subs ≡ true)
unfolding rescan_ros_network
discovers ⦃p⦄ n ns topics w sound here ok named =
    let name = p.this_node_name in
    let (beat, diagnostic, ready) = base_init-advertised topics n ok named in
    let sound' = update_monitor_list-IsSubscribed _ _ _ w sound in
    let in_namespace = λ (y : Text). starts_with-append ns name y here in
    let seen = λ (y : Text). rescan_ros_network-found_it ns (name ++ y) topics w in
    (
      subscribed_to _ _ _ w.monitored_heartbeat _ sound'.heartbeat.1 (seen (text "/heartbeat")).0
          (found_it-topics_of ns heartbeat_type _ topics (in_namespace _) beat),
      subscribed_to _ _ _ w.monitored_diagnostic _ sound'.diagnostic.1 (seen (text "/diagnostic")).2
          (found_it-topics_of ns diagnostic_type _ topics (in_namespace _) diagnostic),
      λ on.
          subscribed_to _ _ _ w.monitored_ready_to_arm _ sound'.ready.1
            (seen (text "/ready_to_arm")).1
            (found_it-topics_of ns ready_to_arm_type _ topics (in_namespace _) (ready on)),
    )
