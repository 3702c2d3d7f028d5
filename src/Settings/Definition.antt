-- ===== src/Settings/Definition.antt =====
-- SettingDef of backend/core/settings_registry.py: the declaration, the coercion of a value that
-- is written, the reading of one that is stored, and the wrapper of a row's value.
use django_base_x.Prelude.{String, Bool, true, false, ◌&&◌, List, str_eq, if◌then◌else◌}
use django_base_x.Prelude.Result.{Result, ok, err, ◌>>=◌, ◌>>◌}
use django_base_x.Settings.Texts.{strip, lower_codes, same_codes, codes}
use django_base_x.Settings.Objects.{
  Object, Raised, null, mapping, pair, no_more, value_error, setting_invalid, is_required,
  not_wrapped,
}
use django_base_x.Settings.Types.{Library, SettingType, parse, parse_text, check, clamp, to_json}

pub record SettingDef (N : Type 0) : Type 0 where
  pub key : String
  pub type_ : SettingType N
  pub default : Object N
  pub label : String
  pub description : String
  pub group : String
  pub module_ : String
  pub changed_by_event : String
  pub used_by : List String
  pub scopes : List String
  pub exposure : String
  pub nullable : Bool

-- except ValueError as exc: raise SettingInvalid(self.key, str(exc))
unfoldable pub naming_key : {A : Type 0} → Result Raised A → Result Raised A
naming_key (ok value) = ok value
naming_key (err raised) = elim raised [
  | value_error rule ↦ err (setting_invalid rule)
  | other ↦ err other
]

module _ {N : Type 0} where
  unfoldable pub is_null : Object N → Bool
  is_null value = elim value [ null ↦ true | _ ↦ false ]

  -- self._parse(value, self.type.parse)
  unfoldable pub parse_required : Library N → SettingDef N → Object N → Result Raised (Object N)
  parse_required library defn value =
      if is_null value
      then (if defn.nullable then ok null else err (setting_invalid is_required))
      else naming_key (parse library defn.type_ value)

  unfoldable pub checked : Library N → SettingDef N → Object N → Result Raised (Object N)
  checked library defn parsed = naming_key (check library defn.type_ parsed) >> ok parsed

  unfoldable pub coerce : Library N → SettingDef N → Object N → Result Raised (Object N)
  coerce library defn value = parse_required library defn value >>= λ parsed.
      if is_null parsed then ok parsed else checked library defn parsed

  unfoldable pub coerce_text : Library N → SettingDef N → String → Result Raised (Object N)
  coerce_text library defn word =
      if defn.nullable && same_codes (lower_codes (codes (strip word))) (codes "null")
      then ok null
      else naming_key (parse_text library defn.type_ word) >>= λ parsed. checked library defn parsed

  unfoldable pub read : Library N → SettingDef N → Object N → Result Raised (Object N)
  read library defn stored = parse_required library defn stored >>= λ parsed.
      if is_null parsed then ok parsed else clamp library defn.type_ parsed

  -- self.to_json(value); every type leaves None as it is
  unfoldable pub def_to_json : Library N → SettingDef N → Object N → Object N
  def_to_json library defn value = to_json library defn.type_ value

  -- {"v": value}
  unfoldable pub stored : Object N → Object N
  stored value = mapping (pair "v" value no_more)

  unfoldable pub unwrap : Object N → Result Raised (Object N)
  unwrap row_value = elim row_value [
    | mapping (pair name value no_more) ↦
        if str_eq name "v" then ok value else err (value_error not_wrapped)
    | _ ↦ err (value_error not_wrapped)
  ]
