-- ===== src/Prelude/Everywhere.antt =====
-- What holds of every row, and which row `first` returns.
use Prim.Native.Nat.{◌≤◌}
use mathlib.Core.Path.{◌≡◌, subst}
use mathlib.Core.Logic.{inl, inr}
use mathlib.Core.Bool.{Bool, true, false}
use mathlib.Core.Option.{some}
use mathlib.Core.List.{List, [], ◌∷◌, ◌++◌}
use native.Mathlib.Omega.{arith}
use django_base_x.Prelude.Tests.{Bool-cases, Option-cases}
use django_base_x.Prelude.Rows.{
  All, filter_by, update_where, count_where, any_where, first_where, least_by,
}
use django_base_x.Prelude.Counts.{count_where_zero, count_where-impl, first_where-count_where}

module _ {A : Type 0} where
  pub All-update_where {κ} :
      (P : A → Type κ) (p : A → Bool) (f : A → A)
      → ((x : A) → P x → p x ≡ true → P (f x))
      → (xs : List A) → All P xs
      → All P (update_where p f xs)
  unfolding update_where
  All-update_where P p f keep [] h = h
  All-update_where P p f keep (x ∷ xs) h = elim (Bool-cases (p x)) [
    | inl e ↦ rw e (keep x h.0 e, All-update_where P p f keep xs h.1)
    | inr e ↦ rw e (h.0, All-update_where P p f keep xs h.1)
  ]

  pub All-impl {κ ν} :
      (P : A → Type κ) (Q : A → Type ν)
      → ((x : A) → P x → Q x)
      → (xs : List A) → All P xs
      → All Q xs
  All-impl P Q imp [] h = tt
  All-impl P Q imp (x ∷ xs) h = (imp x h.0, All-impl P Q imp xs h.1)

  pub All-append {κ} :
      (P : A → Type κ) (front back : List A) → All P front → All P back → All P (front ++ back)
  All-append P [] back first second = second
  All-append P (row ∷ front) back first second = (first.0, All-append P front back first.1 second)

  -- A row that `first` returns passes the filter, and has what every row has.
  pub first_where-some {κ} :
      (P : A → Type κ) (p : A → Bool) (xs : List A) (x : A)
      → All P xs
      → first_where p xs ≡ some x
      → P x × (p x ≡ true)
  unfolding first_where
  first_where-some P p [] x h e = absurd (cc)
  first_where-some P p (y ∷ xs) x h e = elim (Bool-cases (p y)) [
    | inl t ↦
        let same : y ≡ x = ground (arith, e, t) in subst (λ z. P z × (p z ≡ true)) same (h.0, t)
    | inr t ↦ first_where-some P p xs x h.1 (ground (arith, e, t))
  ]

  pub All-filter_by {κ} :
      (P : A → Type κ) (p : A → Bool) (xs : List A) → All P xs → All P (filter_by p xs)
  unfolding filter_by
  All-filter_by P p [] h = tt
  All-filter_by P p (x ∷ xs) h = elim (Bool-cases (p x)) [
    | inl e ↦ rw e (h.0, All-filter_by P p xs h.1)
    | inr e ↦ rw e (All-filter_by P p xs h.1)
  ]

  -- What `order_by(...).first()` returns is one of the rows.
  pub All-least_by {κ} :
      (P : A → Type κ) (before : A → A → Bool) (xs : List A) (x : A)
      → All P xs
      → least_by before xs ≡ some x
      → P x
  unfolding least_by
  All-least_by P before [] x h e = absurd (cc)
  All-least_by P before (y ∷ xs) x h e = elim (Option-cases (least_by before xs)) [
    | inl n ↦ let same : y ≡ x = ground (arith, e, n) in subst P same h.0
    | inr (z, s) ↦ elim (Bool-cases (before z y)) [
      | inl t ↦ All-least_by P before xs x h.1 (ground (arith, e, s, t))
      | inr t ↦ let same : y ≡ x = ground (arith, e, s, t) in subst P same h.0
    ]
  ]

  pub All-zip {κ ν} :
      (P : A → Type κ) (Q : A → Type ν) (xs : List A)
      → All P xs
      → All Q xs
      → All (λ x. P x × Q x) xs
  All-zip P Q [] h k = tt
  All-zip P Q (x ∷ xs) h k = ((h.0, k.0), All-zip P Q xs h.1 k.1)

  pub All-always {κ} : (P : A → Type κ) → ((x : A) → P x) → (xs : List A) → All P xs
  All-always P h [] = tt
  All-always P h (x ∷ xs) = (h x, All-always P h xs)

  -- Where `p` holds of one row at most, it is the row that `first` returns.
  pub first_where_unique :
      (p : A → Bool) (xs : List A) (x : A)
      → count_where p xs ≤ 1
      → first_where p xs ≡ some x
      → All (λ y. p y ≡ true → y ≡ x) xs
  unfolding first_where count_where
  first_where_unique p [] x u e = tt
  first_where_unique p (y ∷ xs) x u e = elim (Bool-cases (p y)) [
    | inl t ↦ (
      λ _. ground (arith, e, t),
      All-impl (λ z. p z ≡ false) (λ z. p z ≡ true → z ≡ x) (λ z f g. absurd (cc)) xs
          (count_where_zero p xs (ground (arith, u, t))),
    )
    | inr f ↦
        (λ g. absurd (cc), first_where_unique p xs x (ground (arith, u, f)) (ground (arith, e, f)))
  ]

  -- The same for a narrower search: where `q` holds of one row at most.
  pub first_where_unique_of :
      (p q : A → Bool)
      → ((x : A) → p x ≡ true → q x ≡ true)
      → (xs : List A) (x : A) → count_where q xs ≤ 1
      → first_where p xs ≡ some x
      → All (λ y. q y ≡ true → y ≡ x) xs
  unfolding first_where count_where
  first_where_unique_of p q imp [] x u e = tt
  first_where_unique_of p q imp (y ∷ xs) x u e = elim (Bool-cases (p y)) [
    | inl t ↦ (
      λ _. ground (arith, e, t),
      All-impl (λ z. q z ≡ false) (λ z. q z ≡ true → z ≡ x) (λ z f g. absurd (cc)) xs
          (count_where_zero q xs (ground (arith, u, imp y t))),
    )
    | inr f ↦
        let later : first_where p xs ≡ some x = ground (arith, e, f) in
        let some_later : 1 ≤ count_where q xs =
          omega (arith, first_where-count_where p xs x later, count_where-impl p q imp xs) in
        (
          λ g. absurd (ground (arith, g, u, some_later)),
          first_where_unique_of p q imp xs x (ground (arith, u)) later,
        )
  ]

  pub any_where-first_where :
      (p : A → Bool) (xs : List A)
      → any_where p xs ≡ true
      → (x : A) × (first_where p xs ≡ some x) × (p x ≡ true)
  unfolding any_where first_where
  any_where-first_where p [] h = absurd (cc)
  any_where-first_where p (y ∷ xs) h = elim (Bool-cases (p y)) [
    | inl t ↦ (y, rw t, t)
    | inr f ↦ let (x, e, t) = any_where-first_where p xs (ground (arith, h, f)) in (x, rw f e, t)
  ]

  -- What every row has after an update, from what the updated and the other rows have.
  pub All-update_where_on {κ} :
      (Q : A → Type κ) (p : A → Bool) (f : A → A) (xs : List A)
      → All (λ x. (p x ≡ true → Q (f x)) × (p x ≡ false → Q x)) xs
      → All Q (update_where p f xs)
  unfolding update_where
  All-update_where_on Q p f [] h = tt
  All-update_where_on Q p f (x ∷ xs) h = elim (Bool-cases (p x)) [
    | inl e ↦ rw e (h.0.0 e, All-update_where_on Q p f xs h.1)
    | inr e ↦ rw e (h.0.1 e, All-update_where_on Q p f xs h.1)
  ]
