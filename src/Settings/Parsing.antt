-- ===== src/Settings/Parsing.antt =====
-- What the parsers of backend/core/settings_registry.py make of the JSON form of a value that they
-- returned.
use django_base_x.Prelude.{
  ℕ, String, false, Option, List, ◌≡◌, refl, Option-cases, inl, inr, arith, subst, sym,
}
use django_base_x.Prelude.Result.{ok}
use django_base_x.Settings.Objects.{Object, number, fixed, text_of, items_of, objects_of}
use django_base_x.Settings.Texts.{strip, strip_all}
use django_base_x.Settings.Types.{
  Library, SettingType, finite, bool, int, decimal, string, long_text, choice, str_list, json,
  parse, parse_bool, parse_int, parse_decimal, parse_string, parse_choice, parse_names,
  parse_str_list, listed, parse_json, to_json, as_list, as_text,
}
use django_base_x.Settings.Definition.{is_null}
use django_base_x.Settings.Stripping.{strip_all-strip_all, names_of-objects_of}

-- What the code relies on in decimal.Decimal: a finite number's text is read back as that number,
-- and `<` is a strict order in which no number lies on the wrong side of both bounds unless these
-- are inverted.
pub record LawfulLibrary {N : Type 0} (library : Library N) : Type 0 where
  pub decimal-str : (n : N) → library.decimal (strip (library.str n)) ≡ finite n
  pub lt_irreflexive : (n : N) → library.lt n n ≡ false
  pub lt_within :
      (low high n : N)
      → library.lt n low ≡ false
      → library.lt high n ≡ false
      → library.lt high low ≡ false

module _ {N : Type 0} where
  parse_bool-again : (value x : Object N) → parse_bool value ≡ ok x → parse_bool x ≡ ok x
  unfolding parse_bool
  parse_bool-again value x e = ground arith

  parse_int-again : (value x : Object N) → parse_int value ≡ ok x → parse_int x ≡ ok x
  unfolding parse_int
  parse_int-again value x e = ground arith

  parse_string-again :
      (max : ℕ) (value x : Object N) → parse_string max value ≡ ok x → parse_string max x ≡ ok x
  unfolding parse_string text_of
  parse_string-again max value x e = ground arith

  parse_choice-again :
      (choices : List String) (value x : Object N)
      → parse_choice choices value ≡ ok x
      → parse_choice choices x ≡ ok x
  unfolding parse_choice text_of
  parse_choice-again choices value x e = ground arith

  parse_json-again :
      (validator : Option (Object N → Option String)) (value x : Object N)
      → parse_json validator value ≡ ok x
      → (value ≡ x)
  unfolding parse_json
  parse_json-again validator value x e = ground arith

  pub parse_decimal-number :
      (library : Library N) (value x : Object N)
      → parse_decimal library value ≡ ok x
      → (n : N) × (x ≡ number n)
  unfolding parse_decimal
  parse_decimal-number library value x e = elim (Option-cases (text_of value)) [
    | inl t ↦ absurd (ground (arith, e, t))
    | inr (s, t) ↦ ground (arith, e, t)
  ]

  pub parse_decimal-again :
      (library : Library N)
      → LawfulLibrary library
      → (value x : Object N) → parse_decimal library value ≡ ok x
      → parse_decimal library (as_text library x) ≡ ok x
  unfolding parse_decimal text_of as_text
  parse_decimal-again library laws value x e =
      let (n, same) = parse_decimal-number library value x e in
      subst (λ z. parse_decimal library (as_text library z) ≡ ok z) (sym same)
        (rw (laws.decimal-str n) refl)

  parse_names-ok :
      (choices : Option (List String)) (names : List String) (x : Object N)
      → parse_names choices names ≡ ok x
      → x ≡ fixed (objects_of names)
  unfolding parse_names
  parse_names-ok choices names x e = ground arith

  parse_str_list-names :
      (choices : Option (List String)) (value x : Object N)
      → parse_str_list choices value ≡ ok x
      → (names : List String) × (x ≡ fixed (objects_of names))
        × (parse_names choices names ≡ ok x)
        × (strip_all names ≡ names)
  unfolding parse_str_list
  parse_str_list-names choices value x e = elim (Option-cases (listed value)) [
    | inl t ↦ absurd (ground (arith, e, t))
    | inr (names, t) ↦
        let once : parse_names choices (strip_all names) ≡ ok x = ground (arith, e, t) in
        (
          strip_all names,
          parse_names-ok choices (strip_all names) x once,
          once,
          strip_all-strip_all names,
        )
  ]

  parse_str_list-again :
      (choices : Option (List String)) (value x : Object N)
      → parse_str_list choices value ≡ ok x
      → parse_str_list choices (as_list x) ≡ ok x
  unfolding parse_str_list listed as_list items_of
  parse_str_list-again choices value x e =
      let (names, same, once, solid) = parse_str_list-names choices value x e in
      subst (λ z. parse_str_list choices (as_list z) ≡ ok x) (sym same)
        (rw (parse_str_list, listed, as_list, items_of, names_of-objects_of N names, solid) once)

  -- Parsing the JSON form of what was parsed gives the same value.
  pub parse-to_json :
      (library : Library N)
      → LawfulLibrary library
      → (type_ : SettingType N) (value x : Object N) → parse library type_ value ≡ ok x
      → parse library type_ (to_json library type_ x) ≡ ok x
  unfolding parse to_json
  parse-to_json library laws bool value x e = parse_bool-again value x e
  parse-to_json library laws (int min max) value x e = parse_int-again value x e
  parse-to_json library laws (decimal min max) value x e =
      parse_decimal-again library laws value x e
  parse-to_json library laws (string max) value x e = parse_string-again max value x e
  parse-to_json library laws (long_text max) value x e = parse_string-again max value x e
  parse-to_json library laws (choice choices) value x e = parse_choice-again choices value x e
  parse-to_json library laws (str_list choices) value x e = parse_str_list-again choices value x e
  parse-to_json library laws (json validator) value x e =
      subst (λ z. parse_json validator z ≡ ok x) (parse_json-again validator value x e) e

  -- None is parsed from None alone.
  pub parse-is_null :
      (library : Library N) (type_ : SettingType N) (value x : Object N)
      → is_null value ≡ false
      → parse library type_ value ≡ ok x
      → is_null x ≡ false
  unfolding parse is_null parse_bool parse_int parse_decimal parse_string parse_choice
      parse_str_list text_of
  parse-is_null library bool value x solid e = ground (arith, e)
  parse-is_null library (int min max) value x solid e = ground (arith, e)
  parse-is_null library (decimal min max) value x solid e =
      let (n, same) = parse_decimal-number library value x e in rw same refl
  parse-is_null library (string max) value x solid e = ground (arith, e)
  parse-is_null library (long_text max) value x solid e = ground (arith, e)
  parse-is_null library (choice choices) value x solid e = ground (arith, e)
  parse-is_null library (str_list choices) value x solid e =
      rw ((parse_str_list-names choices value x e).1) refl
  parse-is_null library (json validator) value x solid e =
      subst (λ z. is_null z ≡ false) (parse_json-again validator value x e) solid

  pub to_json-is_null :
      (library : Library N) (type_ : SettingType N) (value x : Object N)
      → parse library type_ value ≡ ok x
      → is_null x ≡ false
      → is_null (to_json library type_ x) ≡ false
  unfolding to_json parse is_null as_text as_list items_of
  to_json-is_null library bool value x e solid = solid
  to_json-is_null library (int min max) value x e solid = solid
  to_json-is_null library (decimal min max) value x e solid =
      let (n, same) = parse_decimal-number library value x e in rw same refl
  to_json-is_null library (string max) value x e solid = solid
  to_json-is_null library (long_text max) value x e solid = solid
  to_json-is_null library (choice choices) value x e solid = solid
  to_json-is_null library (str_list choices) value x e solid =
      rw ((parse_str_list-names choices value x e).1) refl
  to_json-is_null library (json validator) value x e solid = solid
