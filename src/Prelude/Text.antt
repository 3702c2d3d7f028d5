-- ===== src/Prelude/Text.antt =====
-- Text: equality, and the slice `s[:n]`.
use Prim.Native.Nat.{ℕ, zero, suc, ◌≤◌}
use Prim.Native.String.{String}
use mathlib.Core.Bool.{Bool, true, false}
use native.Mathlib.Omega.{arith}
pub use text.Mathlib.Text.{◌==◌ as str_eq}
pub use text.Mathlib.TextEquality.{eq_iff}
pub use text.Mathlib.TextPositions.{eq_refl}

-- len(s), in characters
abbrev pub chars : String → ℕ
chars String.[] = 0
chars (String.◌∷◌ c s) = suc (chars s)

-- s[:n]
unfoldable pub slice_to : ℕ → String → String
slice_to zero s = String.[]
slice_to (suc n) String.[] = String.[]
slice_to (suc n) (String.◌∷◌ c s) = String.◌∷◌ c (slice_to n s)

pub chars-slice_to : (n : ℕ) (s : String) → chars (slice_to n s) ≤ n
unfolding slice_to
chars-slice_to zero s = omega arith
chars-slice_to (suc n) String.[] = omega arith
chars-slice_to (suc n) (String.◌∷◌ c s) = omega (arith, chars-slice_to n s)

-- `not s`, for a text
abbrev pub is_empty : String → Bool
is_empty String.[] = true
is_empty (String.◌∷◌ c s) = false
