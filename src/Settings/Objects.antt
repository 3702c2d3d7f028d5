-- ===== src/Settings/Objects.antt =====
-- The Python objects that a setting's value can be, and what the calls on settings raise
-- (backend/core/settings_registry.py). `N` is the type of the finite numbers of decimal.Decimal. A
-- float is its repr; the floats nan, inf and -inf are `not_finite`. A list is a `sequence`, a
-- tuple is `fixed`.
use django_base_x.Prelude.{String, Bool, true, false, ◌&&◌, Option, none, some, List, [], ◌∷◌}
use django_base_x.Prelude.Int.{ℤ}

mutual
  pub data Object (N : Type 0) : Type 0 where
    null : Object N
    boolean : Bool → Object N
    integer : ℤ → Object N
    float : String → Object N
    not_finite : Object N
    number : N → Object N
    text : String → Object N
    sequence : Objects N → Object N
    fixed : Objects N → Object N
    mapping : Fields N → Object N

  pub data Objects (N : Type 0) : Type 0 where
    end : Objects N
    item : Object N → Objects N → Objects N

  pub data Fields (N : Type 0) : Type 0 where
    no_more : Fields N
    pair : String → Object N → Fields N → Fields N

-- The rule that a refused value broke; the wording of its message is left out. `refused` is what
-- a validator says.
pub data Rule : Type 0 where
  must_be_boolean must_be_boolean_word must_be_whole must_be_decimal_text must_be_decimal : Rule
  must_be_finite must_be_text must_be_shorter must_be_among must_be_names has_empty_name : Rule
  has_name_twice has_unknown_names must_be_json at_least at_most is_required : Rule
  cannot_be_set_here cannot_be_set_per_tenant needs_public_id locked_at_platform_only : Rule
  not_wrapped : Rule
  refused : String → Rule

pub data Raised : Type 0 where
  value_error : Rule → Raised
  setting_invalid : Rule → Raised
  unknown_setting : Raised
  type_error : Raised
  uncaught : Raised

module _ {N : Type 0} where
  -- json.dumps(value, allow_nan=False) raises nothing
  unfoldable mutual
    pub is_dumped : Object N → Bool
    is_dumped null = true
    is_dumped (boolean b) = true
    is_dumped (integer z) = true
    is_dumped (float repr) = true
    is_dumped not_finite = false
    is_dumped (number n) = false
    is_dumped (text s) = true
    is_dumped (sequence items) = are_dumped items
    is_dumped (fixed items) = are_dumped items
    is_dumped (mapping fields) = fields_dumped fields

    are_dumped : Objects N → Bool
    are_dumped end = true
    are_dumped (item value items) = is_dumped value && are_dumped items

    fields_dumped : Fields N → Bool
    fields_dumped no_more = true
    fields_dumped (pair name value fields) = is_dumped value && fields_dumped fields

  -- What a JSONField gives back of a value that it stored: a tuple comes back as a list.
  unfoldable mutual
    pub saved : Object N → Object N
    saved null = null
    saved (boolean b) = boolean b
    saved (integer z) = integer z
    saved (float repr) = float repr
    saved not_finite = not_finite
    saved (number n) = number n
    saved (text s) = text s
    saved (sequence items) = sequence (items_saved items)
    saved (fixed items) = sequence (items_saved items)
    saved (mapping fields) = mapping (fields_saved fields)

    items_saved : Objects N → Objects N
    items_saved end = end
    items_saved (item value items) = item (saved value) (items_saved items)

    fields_saved : Fields N → Fields N
    fields_saved no_more = no_more
    fields_saved (pair name value fields) = pair name (saved value) (fields_saved fields)

  -- The items of a list or a tuple.
  unfoldable pub items_of : Object N → Option (Objects N)
  items_of value = elim value [ sequence items ↦ some items | fixed items ↦ some items | _ ↦ none ]

  -- isinstance(value, str)
  unfoldable pub text_of : Object N → Option String
  text_of value = elim value [ text s ↦ some s | _ ↦ none ]

  -- The items as texts, where all of them are.
  unfoldable pub names_of : Objects N → Option (List String)
  names_of end = some []
  names_of (item value items) = elim (text_of value) [
    | none ↦ none
    | some name ↦ elim (names_of items) [ none ↦ none | some names ↦ some (name ∷ names) ]
  ]

  unfoldable pub objects_of : List String → Objects N
  objects_of [] = end
  objects_of (name ∷ names) = item (text name) (objects_of names)
