-- ===== src/Policy.antt =====
-- python/src/deferred_teleop/two_button_policy.py: the Robot's decision on an intent to press one of two
-- buttons, from the observation it was authored on and the current one.
use deferred_teleoperation.Base.{ℕ, Bool}
use deferred_teleoperation.M3a.{Pose}
pub mod Reference
pub mod Decide
pub mod Sound
pub mod Recognize
pub mod Command
pub mod Valid

-- Equality of poses, and the arithmetic of doubles. `exceeds` is `>`, and `is_zero` is `== 0.0`.
pub record Geometry : Type 0 where
  pub same_pose : Pose → Pose → Bool
  pub subtract : ℕ → ℕ → ℕ
  pub square : ℕ → ℕ
  pub add : ℕ → ℕ → ℕ
  pub sqrt : ℕ → ℕ
  pub exceeds : ℕ → ℕ → Bool
  pub is_zero : ℕ → Bool

-- `_distance` of two positions, near enough for their squares not to overflow.
unfoldable pub distance : Geometry → ℕ × ℕ × ℕ → ℕ × ℕ × ℕ → ℕ
distance g a b = g.sqrt (
    g.add (g.add (g.square (g.subtract a.0 b.0)) (g.square (g.subtract a.1 b.1)))
      (g.square (g.subtract a.2 b.2)))

abbrev pub position : Pose → ℕ × ℕ × ℕ
position p = (p.x, p.y, p.z)
