-- ===== src/Settings/Accepting.antt =====
-- A value that SettingDef of backend/core/settings_registry.py accepts, and its declared default.
use django_base_x.Prelude.{false, [], ◌≡◌, Bool-cases, inl, inr, arith, ap}
use django_base_x.Prelude.Result.{ok, >>=-eq-ok, Result-cases}
use django_base_x.Settings.Objects.{items_of, Object}
use django_base_x.Settings.Types.{
  Library, SettingType, bool, int, decimal, string, long_text, choice, str_list, json, parse,
  to_json, as_text, as_list,
}
use django_base_x.Settings.Parsing.{parse-is_null}
use django_base_x.Settings.Clamping.{check-clamp}
use django_base_x.Settings.Coercion.{checked-ok, naming_key-ok}
use django_base_x.Settings.Definition.{
  SettingDef, is_null, parse_required, coerce, read, def_to_json,
}
use django_base_x.Settings.Problems.{problems, default_problems}

module _ {N : Type 0} (library : Library N) where
  to_json-solid :
      (type_ : SettingType N) (value : Object N)
      → is_null value ≡ false
      → is_null (to_json library type_ value) ≡ false
  unfolding to_json is_null as_text as_list items_of
  to_json-solid bool value solid = solid
  to_json-solid (int min max) value solid = solid
  to_json-solid (decimal min max) value solid = ground (arith, solid)
  to_json-solid (string max) value solid = solid
  to_json-solid (long_text max) value solid = solid
  to_json-solid (choice choices) value solid = solid
  to_json-solid (str_list choices) value solid = ground (arith, solid)
  to_json-solid (json validator) value solid = solid

module _ {N : Type 0} (library : Library N) (defn : SettingDef N) where
  -- What a write accepts, a read gives as the same value.
  pub coerced-read :
      (value x : Object N) → coerce library defn value ≡ ok x → read library defn value ≡ ok x
  unfolding coerce read is_null
  coerced-read value x e =
      let (parsed, first, then_) = >>=-eq-ok (parse_required library defn value) _ e in
      elim (Bool-cases (is_null parsed)) [
        | inl t ↦ rw (first, t) (ground (arith, then_, t))
        | inr t ↦
            let (within, kept) = checked-ok library defn parsed x (ground (arith, then_, t)) in
            rw (first, t, check-clamp library defn.type_ parsed within) (ap ok kept)
      ]

  parse_required-is_null :
      (value x : Object N)
      → parse_required library defn value ≡ ok x
      → is_null value ≡ false
      → is_null x ≡ false
  unfolding parse_required
  parse_required-is_null value x e solid =
      parse-is_null library defn.type_ value x solid
        (naming_key-ok (parse library defn.type_ value) (ground (arith, e, solid)))

  pub coerce-is_null :
      (value x : Object N)
      → coerce library defn value ≡ ok x
      → is_null value ≡ false
      → is_null x ≡ false
  unfolding coerce
  coerce-is_null value x e solid =
      let (parsed, first, then_) = >>=-eq-ok (parse_required library defn value) _ e in
      let kept = parse_required-is_null value parsed first solid in
      let (_, same) = checked-ok library defn parsed x (ground (arith, then_, kept)) in
      ground (arith, kept, same)

  -- A declaration without problems has a default that a write accepts.
  pub problems-default :
      problems library defn ≡ []
      → (z : Object N) × (coerce library defn (def_to_json library defn defn.default) ≡ ok z)
  unfolding problems default_problems
  problems-default e =
      elim (Result-cases (coerce library defn (def_to_json library defn defn.default))) [
        | inl (z, c) ↦ (z, c)
        | inr (raised, c) ↦ absurd (ground (arith, e, c))
      ]

  pub def_to_json-is_null :
      (value : Object N) → is_null value ≡ false → is_null (def_to_json library defn value) ≡ false
  unfolding def_to_json
  def_to_json-is_null value solid = to_json-solid library defn.type_ value solid
