-- ===== src/Prelude/Searches.antt =====
-- What `first` returns after rows were updated or added.
use mathlib.Core.Path.{◌≡◌, refl}
use mathlib.Core.Bool.{Bool, true}
use mathlib.Core.Option.{some, none}
use mathlib.Core.List.{List, [], ◌∷◌, ◌++◌}
use native.Mathlib.Omega.{arith}
use django_base_x.Prelude.Rows.{first_where, update_where}

module _ {A : Type 0} where
  pub first_where-update_where :
      (p : A → Bool) (f : A → A)
      → ((y : A) → p (f y) ≡ p y)
      → (xs : List A) (x : A) → first_where p xs ≡ some x
      → first_where p (update_where p f xs) ≡ some (f x)
  unfolding first_where update_where
  first_where-update_where p f keeps [] x e = absurd (cc)
  first_where-update_where p f keeps (y ∷ ys) x e =
      ground (arith, e, keeps y, first_where-update_where p f keeps ys x)

  pub first_where-snoc :
      (p : A → Bool) (xs : List A) (x : A)
      → first_where p xs ≡ none
      → p x ≡ true
      → first_where p (xs ++ (x ∷ [])) ≡ some x
  unfolding first_where
  first_where-snoc p [] x e t = rw t refl
  first_where-snoc p (y ∷ ys) x e t = ground (arith, e, t, first_where-snoc p ys x)
