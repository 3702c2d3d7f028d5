-- ===== src/Settings/Bounds.antt =====
-- _Bounded of backend/core/settings_registry.py: the check of a write and the clamp of a read.
use django_base_x.Prelude.{Bool, true, false, Option, none, some, or_else, ltb, if◌then◌else◌}
use django_base_x.Prelude.Int.{ℤ, pos, negsuc}
use django_base_x.Prelude.Result.{Result, ok, err}
use django_base_x.Settings.Objects.{Raised, value_error, at_least, at_most}

unfoldable pub less : ℤ → ℤ → Bool
less (pos a) (pos b) = ltb a b
less (pos a) (negsuc b) = false
less (negsuc a) (pos b) = true
less (negsuc a) (negsuc b) = ltb b a

module _ {V : Type 0} (lt : V → V → Bool) where
  -- self.min is not None and value < self.min
  unfoldable pub is_below : Option V → V → Bool
  is_below none value = false
  is_below (some min) value = lt value min

  unfoldable pub is_above : Option V → V → Bool
  is_above none value = false
  is_above (some max) value = lt max value

  unfoldable pub check_bounds : Option V → Option V → V → Result Raised Unit
  check_bounds min max value =
      if is_below min value
      then err (value_error at_least)
      else if is_above max value
      then err (value_error at_most)
      else ok tt

  unfoldable pub clamp_bounds : Option V → Option V → V → V
  clamp_bounds min max value =
      if is_below min value
      then or_else min value
      else if is_above max value
      then or_else max value
      else value
