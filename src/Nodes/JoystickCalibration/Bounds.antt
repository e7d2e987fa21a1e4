-- ===== src/Nodes/JoystickCalibration/Bounds.antt =====
-- What the calibration knows of the values that came.
use robot_framework_ros.Prelude.{◌≡◌, true, false, List, [], ◌∷◌, ◌++◌, arith}
use robot_framework_ros.Platform.{Platform}
use robot_framework_ros.Nodes.JoystickCalibration.{
  Axis, Calibration, widen, joy_callback, joy_callbacks,
}

module _ ⦃p : Platform⦄ where
  -- A value is neither below the least value nor above the most one.
  abbrev pub Within : p.Real → Axis → Type 0
  Within v a = (p.less a.most v ≡ false) × (p.less v a.least ≡ false)

  abbrev pub AllWithin : p.Real → p.Real → p.Real → Calibration → Type 0
  AllWithin x y t c = Within x c.x × Within y c.y × Within t c.throttle

  module _ (irreflexive : (a : p.Real) → p.less a a ≡ false)
      (transitive : (a b c : p.Real)
        → p.less a b ≡ true
        → p.less b c ≡ true
        → p.less a c ≡ true) where
    widen-Within : (v : p.Real) (a : Axis) → Within v (widen v a)
    unfolding widen
    widen-Within v a = ground (arith, irreflexive v)

    widen-keeps : (u v : p.Real) (a : Axis) → Within u a → Within u (widen v a)
    unfolding widen
    widen-keeps u v a h = ground (arith, transitive a.most v u, transitive u v a.least)

    joy_callbacks-keeps :
        (messages : List (List p.Real)) (x y t : p.Real) (c : Calibration)
        → AllWithin x y t c
        → AllWithin x y t (joy_callbacks messages c)
    unfolding joy_callbacks joy_callback
    joy_callbacks-keeps [] x y t c h = h
    joy_callbacks-keeps ([] ∷ rest) x y t c h = joy_callbacks-keeps rest x y t c h
    joy_callbacks-keeps ((a ∷ []) ∷ rest) x y t c h = joy_callbacks-keeps rest x y t c h
    joy_callbacks-keeps ((a ∷ b ∷ []) ∷ rest) x y t c h = joy_callbacks-keeps rest x y t c h
    joy_callbacks-keeps ((a ∷ b ∷ e ∷ more) ∷ rest) x y t c (h, i, j) =
        joy_callbacks-keeps rest x y t (joy_callback (a ∷ b ∷ e ∷ more) c)
          (widen-keeps x a c.x h, widen-keeps y b c.y i, widen-keeps t e c.throttle j)

    -- Where `<` on the values is irreflexive and transitive: whatever messages come before and
    -- after it, each value of a message with three or more axes lies between the least and the most
    -- value of its axis in the end.
    pub joy_callbacks-AllWithin :
        (before after : List (List p.Real)) (x y t : p.Real) (more : List p.Real) (c : Calibration)
        → AllWithin x y t (joy_callbacks (before ++ ((x ∷ y ∷ t ∷ more) ∷ after)) c)
    unfolding joy_callbacks joy_callback
    joy_callbacks-AllWithin [] after x y t more c =
        joy_callbacks-keeps after x y t (joy_callback (x ∷ y ∷ t ∷ more) c)
          (widen-Within x c.x, widen-Within y c.y, widen-Within t c.throttle)
    joy_callbacks-AllWithin (m ∷ before) after x y t more c =
        joy_callbacks-AllWithin before after x y t more (joy_callback m c)
