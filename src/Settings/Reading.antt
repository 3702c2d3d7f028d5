-- ===== src/Settings/Reading.antt =====
-- How a read of a stored value can end, in backend/core/settings_registry.py and _value_of of
-- backend/core/settings_service.py.
use django_base_x.Prelude.{
  Bool, true, false, Option, none, some, ◌≡◌, refl, Bool-cases, inl, inr, arith, subst, sym,
}
use django_base_x.Prelude.Int.{ℤ}
use django_base_x.Prelude.Result.{Result, ok, err, ok-injective, Result-cases, >>=-eq-ok, ◌>>=◌}
use django_base_x.Settings.Objects.{
  Object, integer, Raised, value_error, setting_invalid, unknown_setting, type_error, uncaught,
}
use django_base_x.Settings.Types.{
  Library, SettingType, bool, int, decimal, string, long_text, choice, str_list, json, parse,
  parse_bool, parse_int, parse_decimal, parse_string, parse_choice, parse_str_list, parse_names,
  parse_json, clamp,
}
use django_base_x.Settings.Definition.{
  SettingDef, is_null, naming_key, parse_required, read, unwrap,
}
use django_base_x.Settings.Parsing.{parse_decimal-number}
use django_base_x.Settings.Service.{Entry, absent, found, malformed}
use django_base_x.Settings.Formed.{IsFormed, IsFormedIn}
use django_base_x.Settings.Resolve.{skipping, value_of}

-- What `except ValueError` and `except (ValueError, SettingInvalid)` let through.
is_value_error : {A : Type 0} → Result Raised A → Bool
is_value_error (ok value) = true
is_value_error (err raised) = elim raised [ value_error rule ↦ true | _ ↦ false ]

unfoldable pub returned : {A : Type 0} → Result Raised A → Option A
returned (ok value) = some value
returned (err raised) = none

pub is_caught : {A : Type 0} → Result Raised A → Bool
is_caught (ok value) = true
is_caught (err raised) = elim raised [
  | value_error rule ↦ true
  | setting_invalid rule ↦ true
  | _ ↦ false
]

module _ {N : Type 0} (library : Library N) where
  parse-is_value_error :
      (type_ : SettingType N) (value : Object N) → is_value_error (parse library type_ value) ≡ true
  unfolding parse is_value_error parse_bool parse_int parse_string parse_choice parse_json
      parse_str_list parse_names parse_decimal
  parse-is_value_error bool value = ground arith
  parse-is_value_error (int min max) value = ground arith
  parse-is_value_error (decimal min max) value = ground arith
  parse-is_value_error (string max) value = ground arith
  parse-is_value_error (long_text max) value = ground arith
  parse-is_value_error (choice choices) value = ground arith
  parse-is_value_error (str_list choices) value = ground arith
  parse-is_value_error (json validator) value = ground arith

  parse_int-integer : (value x : Object N) → parse_int value ≡ ok x → (n : ℤ) × (x ≡ integer n)
  unfolding parse_int
  parse_int-integer value x = elim value as (λ w. parse_int w ≡ ok x → (n : ℤ) × (x ≡ integer n)) [
    | integer n ↦ λ e. (n, sym (ok-injective e))
    | _ ↦ λ e. absurd (cc)
  ]

  parse-clamp-ok :
      (type_ : SettingType N) (value x : Object N)
      → parse library type_ value ≡ ok x
      → (y : Object N) × (clamp library type_ x ≡ ok y)
  unfolding parse clamp
  parse-clamp-ok bool value x e = (x, refl)
  parse-clamp-ok (int min max) value x e =
      let (n, same) = parse_int-integer value x e in rw same (_, refl)
  parse-clamp-ok (decimal min max) value x e =
      let (n, same) = parse_decimal-number library value x e in rw same (_, refl)
  parse-clamp-ok (string max) value x e = (x, refl)
  parse-clamp-ok (long_text max) value x e = (x, refl)
  parse-clamp-ok (choice choices) value x e = (x, refl)
  parse-clamp-ok (str_list choices) value x e = (x, refl)
  parse-clamp-ok (json validator) value x e = (x, refl)

  read-is_caught :
      (defn : SettingDef N) (stored : Object N) → is_caught (read library defn stored) ≡ true
  unfolding read is_caught parse_required naming_key is_value_error is_null
  read-is_caught defn stored = elim (Bool-cases (is_null stored)) [
    | inl t ↦ elim (Bool-cases defn.nullable) [ inl n ↦ rw (t, n) refl | inr n ↦ rw (t, n) refl ]
    | inr t ↦ elim (Result-cases (parse library defn.type_ stored)) [
      | inl (x, e) ↦
          let (y, c) = parse-clamp-ok defn.type_ stored x e in
          elim (Bool-cases (is_null x)) [ inl n ↦ rw (t, e, n) refl | inr n ↦ rw (t, e, n, c) refl ]
      | inr (raised, e) ↦ ground (arith, e, t, parse-is_value_error defn.type_ stored)
    ]
  ]

  unwrap-is_caught : (value : Object N) → is_caught (unwrap value) ≡ true
  unfolding unwrap is_caught
  unwrap-is_caught value = ground arith

  pub wrapped-is_caught :
      (defn : SettingDef N) (value : Object N)
      → is_caught (unwrap value >>= λ inner. read library defn inner) ≡ true
  unfolding is_caught
  wrapped-is_caught defn value = elim (Result-cases (unwrap value)) [
    | inl (inner, e) ↦ rw e (read-is_caught defn inner)
    | inr (raised, e) ↦ rw e (subst (λ r. is_caught r ≡ true) e (unwrap-is_caught value))
  ]

  -- What a value came from: a stored object that reads as it.
  unfoldable pub IsRead : SettingDef N → Object N → Type 0
  IsRead defn x = (stored : Object N) × (read library defn stored ≡ ok x)

  skipping-ok :
      (r : Result Raised (Object N))
      → is_caught r ≡ true
      → (value : Option (Object N)) × (skipping library r ≡ ok value)
        × ((x : Object N) → value ≡ some x → r ≡ ok x)
  unfolding skipping is_caught
  skipping-ok (ok x) caught = (some x, refl, λ y e. cc)
  skipping-ok (err (value_error rule)) caught = (none, refl, λ x e. absurd (cc))
  skipping-ok (err (setting_invalid rule)) caught = (none, refl, λ x e. absurd (cc))
  skipping-ok (err unknown_setting) caught = absurd (cc)
  skipping-ok (err type_error) caught = absurd (cc)
  skipping-ok (err uncaught) caught = absurd (cc)

  pub skipping-eq :
      (r : Result Raised (Object N)) → is_caught r ≡ true → skipping library r ≡ ok (returned r)
  unfolding skipping is_caught returned
  skipping-eq (ok x) caught = refl
  skipping-eq (err (value_error rule)) caught = refl
  skipping-eq (err (setting_invalid rule)) caught = refl
  skipping-eq (err unknown_setting) caught = absurd (cc)
  skipping-eq (err type_error) caught = absurd (cc)
  skipping-eq (err uncaught) caught = absurd (cc)

  -- An entry has a value that was read, or is skipped.
  pub value_of-ok :
      (defn : SettingDef N) (entry : Option (Entry N))
      → IsFormedIn entry
      → (value : Option (Object N)) × (value_of library defn entry ≡ ok value)
        × ((x : Object N) → value ≡ some x → IsRead defn x)
  unfolding value_of IsRead IsFormedIn IsFormed
  value_of-ok defn none formed = (none, refl, λ x e. absurd (cc))
  value_of-ok defn (some malformed) formed = elim formed [ ]
  value_of-ok defn (some absent) formed = (none, refl, λ x e. absurd (cc))
  value_of-ok defn (some (found value locked)) formed =
      let (kept, skipped, is_read) =
        skipping-ok (unwrap value >>= λ inner. read library defn inner)
          (wrapped-is_caught defn value) in
      (
        kept,
        skipped,
        λ x e.
            let (inner, _, done) =
              >>=-eq-ok (unwrap value) (λ inner. read library defn inner) (is_read x e) in
            (inner, done),
      )
