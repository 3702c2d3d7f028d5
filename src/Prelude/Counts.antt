-- ===== src/Prelude/Counts.antt =====
-- How many rows pass a filter, before and after an update.
use Prim.Native.Nat.{suc, ◌+◌, ◌≤◌}
use mathlib.Core.Path.{◌≡◌, refl}
use mathlib.Core.Logic.{inl, inr}
use mathlib.Core.Bool.{Bool, true, false}
use mathlib.Core.Option.{some}
use mathlib.Core.List.{List, [], ◌∷◌, ◌++◌}
use native.Mathlib.Omega.{arith}
use django_base_x.Prelude.Tests.{if◌then◌else◌, Bool-cases}
use django_base_x.Prelude.Rows.{All, update_where, count_where, any_where, first_where}

module _ {A : Type 0} where
  -- An update that keeps what `q` reads keeps the count of `q`.
  pub count_where-update_where :
      (q p : A → Bool) (f : A → A)
      → ((x : A) → p x ≡ true → q (f x) ≡ q x)
      → (xs : List A) → count_where q (update_where p f xs) ≡ count_where q xs
  unfolding count_where update_where
  count_where-update_where q p f same [] = refl
  count_where-update_where q p f same (x ∷ xs) =
      ground (arith, same x, count_where-update_where q p f same xs)

  -- An update that takes every row it changes out of `p` leaves none in `p`.
  pub count_where-update_where_self :
      (p : A → Bool) (f : A → A)
      → ((x : A) → p (f x) ≡ false)
      → (xs : List A) → count_where p (update_where p f xs) ≡ 0
  unfolding count_where update_where
  count_where-update_where_self p f gone [] = refl
  count_where-update_where_self p f gone (x ∷ xs) =
      ground (arith, gone x, count_where-update_where_self p f gone xs)

  pub count_where-update_where_le :
      (q p : A → Bool) (f : A → A)
      → ((x : A) → q (f x) ≡ false)
      → (xs : List A) → count_where q (update_where p f xs) ≤ count_where q xs
  unfolding count_where update_where
  count_where-update_where_le q p f gone [] = omega arith
  count_where-update_where_le q p f gone (x ∷ xs) =
      ground (arith, gone x, count_where-update_where_le q p f gone xs)

  pub any_where-count_where_pos :
      (p : A → Bool) (xs : List A) → any_where p xs ≡ true → 1 ≤ count_where p xs
  unfolding any_where count_where
  any_where-count_where_pos p [] h = cc
  any_where-count_where_pos p (x ∷ xs) h = ground (arith, any_where-count_where_pos p xs)

  -- An update that no row is subject to changes nothing.
  pub update_where_none :
      (p : A → Bool) (f : A → A) (xs : List A) → count_where p xs ≡ 0 → update_where p f xs ≡ xs
  unfolding count_where update_where
  update_where_none p f [] h = refl
  update_where_none p f (x ∷ xs) h = ground (arith, update_where_none p f xs)

  pub any_where-count_where :
      (p : A → Bool) (xs : List A) → any_where p xs ≡ false → count_where p xs ≡ 0
  unfolding any_where count_where
  any_where-count_where p [] h = refl
  any_where-count_where p (x ∷ xs) h = ground (arith, any_where-count_where p xs)

  pub count_where-append :
      (p : A → Bool) (xs ys : List A)
      → count_where p (xs ++ ys) ≡ count_where p xs + count_where p ys
  unfolding count_where
  count_where-append p [] ys = omega arith
  count_where-append p (x ∷ xs) ys = ground (arith, count_where-append p xs ys)

  pub count_where_zero :
      (p : A → Bool) (xs : List A) → count_where p xs ≡ 0 → All (λ x. p x ≡ false) xs
  unfolding count_where
  count_where_zero p [] h = tt
  count_where_zero p (x ∷ xs) h = elim (Bool-cases (p x)) [
    | inl t ↦ absurd (ground (arith, h, t))
    | inr f ↦ (f, count_where_zero p xs (ground (arith, h, f)))
  ]

  pub All-count_where_zero :
      (p : A → Bool) (xs : List A) → All (λ x. p x ≡ false) xs → count_where p xs ≡ 0
  unfolding count_where
  All-count_where_zero p [] h = refl
  All-count_where_zero p (x ∷ xs) h = ground (arith, h.0, All-count_where_zero p xs h.1)

  pub count_where-snoc :
      (p : A → Bool) (xs : List A) (x : A)
      → count_where p (xs ++ (x ∷ [])) ≡ (if p x then suc (count_where p xs) else count_where p xs)
  unfolding count_where
  count_where-snoc p [] x = refl
  count_where-snoc p (y ∷ xs) x = ground (arith, count_where-snoc p xs x)

  pub first_where-count_where :
      (p : A → Bool) (xs : List A) (x : A) → first_where p xs ≡ some x → 1 ≤ count_where p xs
  unfolding first_where count_where
  first_where-count_where p [] x e = absurd (cc)
  first_where-count_where p (y ∷ xs) x e = ground (arith, first_where-count_where p xs x)

  pub count_where-impl :
      (p q : A → Bool)
      → ((x : A) → p x ≡ true → q x ≡ true)
      → (xs : List A) → count_where p xs ≤ count_where q xs
  unfolding count_where
  count_where-impl p q imp [] = omega arith
  count_where-impl p q imp (x ∷ xs) = ground (arith, imp x, count_where-impl p q imp xs)
