-- ===== src/Settings/Types.antt =====
-- The setting types of backend/core/settings_registry.py. Decimal and json.loads are Python's, and
-- parameters: `decimal` reads a stripped text, `str` writes a finite number, `lt` is `<` on them,
-- and `loads` is json.loads.
use django_base_x.Prelude.{
  ℕ, String, ◌||◌, filter_by, Bool, true, false, not, Option, none, some, List, ltb, str_eq,
  any_where, is_empty, chars, if◌then◌else◌,
}
use django_base_x.Prelude.Int.{ℤ}
use django_base_x.Prelude.Result.{Result, ok, err}
use django_base_x.Settings.Texts.{
  strip, is_in, has_twice, are_in, strip_all, split_commas, int_of, codes,
}
use django_base_x.Settings.Objects.{
  Object, Objects, Fields, null, mapping, end, item, no_more, pair, Rule, Raised, boolean, integer,
  number, text, sequence, fixed, value_error, type_error, must_be_boolean, must_be_boolean_word,
  must_be_whole, must_be_decimal_text, must_be_decimal, must_be_finite, must_be_text,
  must_be_shorter, must_be_among, must_be_names, has_empty_name, has_name_twice, has_unknown_names,
  must_be_json, refused, is_dumped, items_of, text_of, names_of, objects_of,
}
use django_base_x.Settings.Bounds.{less, check_bounds, clamp_bounds}

-- What decimal.Decimal makes of a text.
pub data Parsed (N : Type 0) : Type 0 where
  invalid : Parsed N
  infinite : Parsed N
  finite : N → Parsed N

-- decimal.Decimal of a text, str of a Decimal and of any other object, < on Decimals, json.loads.
pub record Library (N : Type 0) : Type 0 where
  pub decimal : String → Parsed N
  pub str : N → String
  pub show : Object N → String
  pub lt : N → N → Bool
  pub loads : String → Option (Object N)

-- A validator returns the rule that the value breaks, if it breaks one.
pub data SettingType (N : Type 0) : Type 0 where
  bool : SettingType N
  int : Option ℤ → Option ℤ → SettingType N
  decimal : Option N → Option N → SettingType N
  string : ℕ → SettingType N
  long_text : ℕ → SettingType N
  choice : List String → SettingType N
  str_list : Option (List String) → SettingType N
  json : Option (Object N → Option String) → SettingType N

unfoldable pub all_among : Option (List String) → List String → Bool
all_among none names = true
all_among (some choices) names = are_in names choices

-- [v for v in text.split(",") if v.strip()]
unfoldable pub parts_of : String → List String
parts_of word = filter_by (λ part. not (is_empty (strip part))) (split_commas word)

module _ {N : Type 0} where
  abbrev refuse : Rule → Result Raised (Object N)
  refuse rule = err (value_error rule)

  unfoldable pub parse_bool : Object N → Result Raised (Object N)
  parse_bool value = elim value [ boolean b ↦ ok (boolean b) | _ ↦ refuse must_be_boolean ]

  unfoldable pub parse_bool_text : String → Result Raised (Object N)
  parse_bool_text word =
      let trimmed = strip word in
      if str_eq trimmed "true" || str_eq trimmed "1"
      then ok (boolean true)
      else if str_eq trimmed "false" || str_eq trimmed "0"
      then ok (boolean false)
      else refuse must_be_boolean_word

  unfoldable pub parse_int : Object N → Result Raised (Object N)
  parse_int value = elim value [ integer z ↦ ok (integer z) | _ ↦ refuse must_be_whole ]

  unfoldable pub parse_int_text : String → Result Raised (Object N)
  parse_int_text word = elim (int_of (codes (strip word))) [
    | some z ↦ ok (integer z)
    | none ↦ refuse must_be_whole
  ]

  unfoldable pub parse_decimal : Library N → Object N → Result Raised (Object N)
  parse_decimal library value = elim (text_of value) [
    | none ↦ refuse must_be_decimal_text
    | some s ↦ elim (library.decimal (strip s)) [
      | invalid ↦ refuse must_be_decimal
      | infinite ↦ refuse must_be_finite
      | finite n ↦ ok (number n)
    ]
  ]

  unfoldable pub parse_string : ℕ → Object N → Result Raised (Object N)
  parse_string max_length value = elim (text_of value) [
    | none ↦ refuse must_be_text
    | some s ↦ if ltb max_length (chars s) then refuse must_be_shorter else ok (text s)
  ]

  unfoldable pub parse_choice : List String → Object N → Result Raised (Object N)
  parse_choice choices value = elim (text_of value) [
    | none ↦ refuse must_be_among
    | some s ↦ if is_in s choices then ok (text s) else refuse must_be_among
  ]

  -- The names of a value, which must be a list or a tuple of texts.
  unfoldable pub listed : Object N → Option (List String)
  listed value = elim (items_of value) [ none ↦ none | some items ↦ names_of items ]

  unfoldable pub parse_names : Option (List String) → List String → Result Raised (Object N)
  parse_names choices names =
      if any_where is_empty names
      then refuse has_empty_name
      else if has_twice names
      then refuse has_name_twice
      else if all_among choices names
      then ok (fixed (objects_of names))
      else refuse has_unknown_names

  unfoldable pub parse_str_list : Option (List String) → Object N → Result Raised (Object N)
  parse_str_list choices value = elim (listed value) [
    | none ↦ refuse must_be_names
    | some names ↦ parse_names choices (strip_all names)
  ]

  unfoldable pub parse_json :
      Option (Object N → Option String) → Object N → Result Raised (Object N)
  parse_json validator value =
      if is_dumped value
      then elim validator [
        | none ↦ ok value
        | some validate ↦ elim (validate value) [
          | none ↦ ok value
          | some rule ↦ refuse (refused rule)
        ]
      ]
      else refuse must_be_json

  -- value.parse, of the setting's type
  unfoldable pub parse : Library N → SettingType N → Object N → Result Raised (Object N)
  parse library bool value = parse_bool value
  parse library (int min max) value = parse_int value
  parse library (decimal min max) value = parse_decimal library value
  parse library (string max_length) value = parse_string max_length value
  parse library (long_text max_length) value = parse_string max_length value
  parse library (choice choices) value = parse_choice choices value
  parse library (str_list choices) value = parse_str_list choices value
  parse library (json validator) value = parse_json validator value

  unfoldable pub parse_text : Library N → SettingType N → String → Result Raised (Object N)
  parse_text library bool word = parse_bool_text word
  parse_text library (int min max) word = parse_int_text word
  parse_text library (decimal min max) word = parse_decimal library (text word)
  parse_text library (string max_length) word = parse_string max_length (text word)
  parse_text library (long_text max_length) word = parse_string max_length (text word)
  parse_text library (choice choices) word = parse_choice choices (text word)
  parse_text library (str_list choices) word =
      parse_str_list choices (sequence (objects_of (parts_of word)))
  parse_text library (json validator) word = elim (library.loads word) [
    | none ↦ refuse must_be_json
    | some value ↦ parse_json validator value
  ]

  -- A bounded type compares what its own `parse` returned; any other object has no order here.
  unfoldable pub check : Library N → SettingType N → Object N → Result Raised Unit
  check library bool value = ok tt
  check library (int min max) value = elim value [
    | integer z ↦ check_bounds less min max z
    | _ ↦ err type_error
  ]
  check library (decimal min max) value = elim value [
    | number n ↦ check_bounds library.lt min max n
    | _ ↦ err type_error
  ]
  check library (string max_length) value = ok tt
  check library (long_text max_length) value = ok tt
  check library (choice choices) value = ok tt
  check library (str_list choices) value = ok tt
  check library (json validator) value = ok tt

  unfoldable pub clamp : Library N → SettingType N → Object N → Result Raised (Object N)
  clamp library bool value = ok value
  clamp library (int min max) value = elim value [
    | integer z ↦ ok (integer (clamp_bounds less min max z))
    | _ ↦ err type_error
  ]
  clamp library (decimal min max) value = elim value [
    | number n ↦ ok (number (clamp_bounds library.lt min max n))
    | _ ↦ err type_error
  ]
  clamp library (string max_length) value = ok value
  clamp library (long_text max_length) value = ok value
  clamp library (choice choices) value = ok value
  clamp library (str_list choices) value = ok value
  clamp library (json validator) value = ok value

  -- list(s): the characters
  unfoldable pub letters : String → Objects N
  letters String.[] = end
  letters (String.◌∷◌ c s) = item (text (String.◌∷◌ c String.[])) (letters s)

  -- list(fields): the keys
  unfoldable pub keys_of : Fields N → Objects N
  keys_of no_more = end
  keys_of (pair name value fields) = item (text name) (keys_of fields)

  -- list(value); the other classes, for which it raises TypeError, are left as they are
  unfoldable pub as_list : Object N → Object N
  as_list value = elim value [
    | sequence items ↦ sequence items
    | fixed items ↦ sequence items
    | text s ↦ sequence (letters s)
    | mapping fields ↦ sequence (keys_of fields)
    | other ↦ other
  ]

  -- None if value is None else str(value)
  unfoldable pub as_text : Library N → Object N → Object N
  as_text library value = elim value [
    | null ↦ null
    | text s ↦ text s
    | number n ↦ text (library.str n)
    | other ↦ text (library.show other)
  ]

  unfoldable pub to_json : Library N → SettingType N → Object N → Object N
  to_json library bool value = value
  to_json library (int min max) value = value
  to_json library (decimal min max) value = as_text library value
  to_json library (string max_length) value = value
  to_json library (long_text max_length) value = value
  to_json library (choice choices) value = value
  to_json library (str_list choices) value = as_list value
  to_json library (json validator) value = value
