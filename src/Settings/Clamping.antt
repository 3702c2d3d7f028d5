-- ===== src/Settings/Clamping.antt =====
-- Check and clamp of a bounded type of backend/core/settings_registry.py.
use django_base_x.Prelude.{Bool, false, Option, none, some, ◌≡◌, refl, arith, subst, sym}
use django_base_x.Prelude.Int.{ℤ, pos, negsuc}
use django_base_x.Prelude.Result.{ok, ok-injective}
use django_base_x.Settings.Objects.{Object, integer, number, text_of}
use django_base_x.Settings.Types.{
  Library, SettingType, bool, int, decimal, string, long_text, choice, str_list, json, parse,
  parse_int, parse_decimal, to_json, check, clamp, as_text,
}
use django_base_x.Settings.Definition.{is_null}
use django_base_x.Settings.Bounds.{less, check_bounds, clamp_bounds, is_below, is_above}
use django_base_x.Settings.Parsing.{LawfulLibrary, parse-to_json}

less_irreflexive : (n : ℤ) → less n n ≡ false
unfolding less
less_irreflexive (pos a) = ground arith
less_irreflexive (negsuc a) = ground arith

less_within : (low high n : ℤ) → less n low ≡ false → less high n ≡ false → less high low ≡ false
unfolding less
less_within low high n above below = ground arith

module _ {V : Type 0} (lt : V → V → Bool) where
  -- A value that passes the check is not moved.
  check_bounds-clamp_bounds :
      (min max : Option V) (x : V)
      → check_bounds lt min max x ≡ ok tt
      → clamp_bounds lt min max x ≡ x
  unfolding check_bounds clamp_bounds
  check_bounds-clamp_bounds min max x e = ground (arith, e)

  -- Where some value passes, the clamped one does.
  clamp_bounds-check_bounds :
      ((n : V) → lt n n ≡ false)
      → ((low high n : V) → lt n low ≡ false → lt high n ≡ false → lt high low ≡ false)
      → (min max : Option V) (z x : V) → check_bounds lt min max z ≡ ok tt
      → check_bounds lt min max (clamp_bounds lt min max x) ≡ ok tt
  unfolding check_bounds clamp_bounds is_below is_above
  clamp_bounds-check_bounds irreflexive within none none z x e = refl
  clamp_bounds-check_bounds irreflexive within (some low) none z x e =
      ground (arith, e, irreflexive low)
  clamp_bounds-check_bounds irreflexive within none (some high) z x e =
      ground (arith, e, irreflexive high)
  clamp_bounds-check_bounds irreflexive within (some low) (some high) z x e =
      ground (arith, e, irreflexive low, irreflexive high, within low high z)

module _ {N : Type 0} (library : Library N) where
  check-integer :
      (min max : Option ℤ) (x : Object N)
      → check library (int min max) x ≡ ok tt
      → (n : ℤ) × (x ≡ integer n) × (check_bounds less min max n ≡ ok tt)
  unfolding check
  check-integer min max x =
      elim x
        as (λ w.
          check library (int min max) w ≡ ok tt
          → (n : ℤ) × (w ≡ integer n) × (check_bounds less min max n ≡ ok tt)) [
            | integer n ↦ λ e. (n, refl, e)
            | _ ↦ λ e. absurd (cc)
          ]

  check-number :
      (min max : Option N) (x : Object N)
      → check library (decimal min max) x ≡ ok tt
      → (n : N) × (x ≡ number n) × (check_bounds library.lt min max n ≡ ok tt)
  unfolding check
  check-number min max x e = ground (arith, e)

  clamp-integer :
      (min max : Option ℤ) (x y : Object N)
      → clamp library (int min max) x ≡ ok y
      → (n : ℤ) × (y ≡ integer (clamp_bounds less min max n))
  unfolding clamp
  clamp-integer min max x y =
      elim x
        as (λ w.
          clamp library (int min max) w ≡ ok y
          → (n : ℤ) × (y ≡ integer (clamp_bounds less min max n))) [
            | integer n ↦ λ c. (n, sym (ok-injective c))
            | _ ↦ λ c. absurd (cc)
          ]

  clamp-number :
      (min max : Option N) (x y : Object N)
      → clamp library (decimal min max) x ≡ ok y
      → (n : N) × (y ≡ number (clamp_bounds library.lt min max n))
  unfolding clamp
  clamp-number min max x y c = ground (arith, c)

  pub check-clamp :
      (type_ : SettingType N) (x : Object N)
      → check library type_ x ≡ ok tt
      → clamp library type_ x ≡ ok x
  unfolding check clamp
  check-clamp bool x e = refl
  check-clamp (int min max) x e =
      let (n, same, within) = check-integer min max x e in
      rw same (rw (check_bounds-clamp_bounds less min max n within) refl)
  check-clamp (decimal min max) x e =
      let (n, same, within) = check-number min max x e in
      rw same (rw (check_bounds-clamp_bounds library.lt min max n within) refl)
  check-clamp (string max) x e = refl
  check-clamp (long_text max) x e = refl
  check-clamp (choice choices) x e = refl
  check-clamp (str_list choices) x e = refl
  check-clamp (json validator) x e = refl

  kept :
      LawfulLibrary library
      → (type_ : SettingType N) (value x y : Object N) → parse library type_ value ≡ ok x
      → x ≡ y
      → parse library type_ (to_json library type_ y) ≡ ok y
  kept laws type_ value x y e same =
      subst (λ z. parse library type_ (to_json library type_ z) ≡ ok z) same
        (parse-to_json library laws type_ value x e)

  pub clamp-parse :
      LawfulLibrary library
      → (type_ : SettingType N) (value x y : Object N) → parse library type_ value ≡ ok x
      → clamp library type_ x ≡ ok y
      → parse library type_ (to_json library type_ y) ≡ ok y
  unfolding clamp parse to_json parse_int parse_decimal clamp_bounds as_text text_of is_below
  clamp-parse laws bool value x y e c = kept laws bool value x y e (ok-injective c)
  clamp-parse laws (int min max) value x y e c =
      let (n, same) = clamp-integer min max x y c in rw same refl
  clamp-parse laws (decimal min max) value x y e c =
      let (n, same) = clamp-number min max x y c in
      rw same (rw (parse_decimal, as_text, text_of, laws.decimal-str) refl)
  clamp-parse laws (string max) value x y e c = kept laws (string max) value x y e (ok-injective c)
  clamp-parse laws (long_text max) value x y e c =
      kept laws (long_text max) value x y e (ok-injective c)
  clamp-parse laws (choice choices) value x y e c =
      kept laws (choice choices) value x y e (ok-injective c)
  clamp-parse laws (str_list choices) value x y e c =
      kept laws (str_list choices) value x y e (ok-injective c)
  clamp-parse laws (json validator) value x y e c =
      kept laws (json validator) value x y e (ok-injective c)

  pub clamp-check :
      LawfulLibrary library
      → (type_ : SettingType N) (z x y : Object N) → check library type_ z ≡ ok tt
      → clamp library type_ x ≡ ok y
      → check library type_ y ≡ ok tt
  unfolding clamp check
  clamp-check laws bool z x y e c = refl
  clamp-check laws (int min max) z x y e c =
      let (n, same) = clamp-integer min max x y c in
      let (least, _, within) = check-integer min max z e in
      rw same (clamp_bounds-check_bounds less less_irreflexive less_within min max least n within)
  clamp-check laws (decimal min max) z x y e c =
      let (n, same) = clamp-number min max x y c in
      let (least, _, within) = check-number min max z e in
      rw same (
        clamp_bounds-check_bounds library.lt laws.lt_irreflexive laws.lt_within min max least n
          within)
  clamp-check laws (string max) z x y e c = refl
  clamp-check laws (long_text max) z x y e c = refl
  clamp-check laws (choice choices) z x y e c = refl
  clamp-check laws (str_list choices) z x y e c = refl
  clamp-check laws (json validator) z x y e c = refl

  pub clamp-is_null :
      (type_ : SettingType N) (x y : Object N)
      → clamp library type_ x ≡ ok y
      → is_null x ≡ false
      → is_null y ≡ false
  unfolding clamp is_null
  clamp-is_null bool x y c solid = ground (arith, c, solid)
  clamp-is_null (int min max) x y c solid = rw ((clamp-integer min max x y c).1) refl
  clamp-is_null (decimal min max) x y c solid = rw ((clamp-number min max x y c).1) refl
  clamp-is_null (string max) x y c solid = ground (arith, c, solid)
  clamp-is_null (long_text max) x y c solid = ground (arith, c, solid)
  clamp-is_null (choice choices) x y c solid = ground (arith, c, solid)
  clamp-is_null (str_list choices) x y c solid = ground (arith, c, solid)
  clamp-is_null (json validator) x y c solid = ground (arith, c, solid)
