-- ===== src/Prelude/Rows.antt =====
-- A database table as the list of its rows: what `filter`, `update`, `count`, `exists` and `first`
-- do to it, and lists measured by native numbers.
use Prim.Native.Nat.{ℕ, zero, suc}
use mathlib.Core.Bool.{Bool, true, false, ◌||◌, ◌&&◌}
use mathlib.Core.Option.{Option, none, some}
use mathlib.Core.List.{List, [], ◌∷◌}
use django_base_x.Prelude.Tests.{if◌then◌else◌}

-- A predicate by recursion: it computes to tuples, which the tactics read and build.
abbrev pub All {κ} : {A : Type 0} → (A → Type κ) → List A → Type κ
All Holds [] = Unit
All Holds (row ∷ rows) = Holds row × All Holds rows

module _ {A : Type 0} where
  abbrev pub length : List A → ℕ
  length [] = 0
  length (x ∷ xs) = suc (length xs)

  abbrev pub take : ℕ → List A → List A
  take zero xs = []
  take (suc n) [] = []
  take (suc n) (x ∷ xs) = x ∷ take n xs

  abbrev pub drop : ℕ → List A → List A
  drop zero xs = xs
  drop (suc n) [] = []
  drop (suc n) (x ∷ xs) = drop n xs

  -- rows.filter(p)
  unfoldable pub filter_by : (A → Bool) → List A → List A
  filter_by p [] = []
  filter_by p (x ∷ xs) = let rest = filter_by p xs in if p x then x ∷ rest else rest

  -- rows.filter(p).update(f)
  unfoldable pub update_where : (A → Bool) → (A → A) → List A → List A
  update_where p f [] = []
  update_where p f (x ∷ xs) = (if p x then f x else x) ∷ update_where p f xs

  -- rows.filter(p).count(), and the number of rows that `update` reports
  unfoldable pub count_where : (A → Bool) → List A → ℕ
  count_where p [] = 0
  count_where p (x ∷ xs) = let rest = count_where p xs in if p x then suc rest else rest

  -- rows.filter(p).exists()
  unfoldable pub any_where : (A → Bool) → List A → Bool
  any_where p [] = false
  any_where p (x ∷ xs) = p x || any_where p xs

  unfoldable pub all_where : (A → Bool) → List A → Bool
  all_where p [] = true
  all_where p (x ∷ xs) = p x && all_where p xs

  -- rows.filter(p).first(), in the table's order
  unfoldable pub first_where : (A → Bool) → List A → Option A
  first_where p [] = none
  first_where p (x ∷ xs) = let rest = first_where p xs in if p x then some x else rest

  -- rows.order_by(...).first(): the first row that no later one precedes
  unfoldable pub least_by : (A → A → Bool) → List A → Option A
  least_by before [] = none
  least_by before (x ∷ xs) = elim (least_by before xs) [
    | none ↦ some x
    | some y ↦ if before y x then some y else some x
  ]
