-- ===== src/Settings/Problems.antt =====
-- The patterns of a setting's key and SettingDef.problems of backend/core/settings_registry.py.
-- What the fields' types already say (that a label is a text, the scopes a tuple) is left out.
use django_base_x.Prelude.{
  ℕ, String, Bool, true, false, not, ◌||◌, ◌&&◌, List, [], ◌∷◌, ◌++◌, leb, str_eq, all_where,
  any_where, is_empty, length, if◌then◌else◌, ◌==◌,
}
use django_base_x.Prelude.Result.{ok, err}
use Prim.Native.Char.{code}
use django_base_x.Settings.Texts.{strip, codes, is_in, is_digit, are_in, has_twice}
use django_base_x.Settings.Types.{Library}
use django_base_x.Settings.Definition.{SettingDef, coerce, def_to_json}

-- SCOPES, RESERVED_NAMESPACES and EXPOSURES
abbrev pub all_scopes : List String
all_scopes = "user" ∷ "tenant" ∷ "platform" ∷ []

abbrev pub reserved_namespaces : List String
reserved_namespaces = "platform" ∷ "security" ∷ []

abbrev pub exposures : List String
exposures = "private" ∷ "authenticated" ∷ "public" ∷ []

pub data Problem : Type 0 where
  bad_key two_segments bad_module foreign_namespace empty_label empty_description empty_group :
      Problem
  empty_changed_by_event bad_used_by bad_scopes bad_exposure bad_default : Problem

-- [a-z] and [a-z0-9_]
unfoldable pub is_letter : ℕ → Bool
is_letter n = leb 97 n && leb n 122

unfoldable pub is_word_code : ℕ → Bool
is_word_code n = is_letter n || is_digit n || (n == 95)

-- [a-z][a-z0-9_]*
unfoldable pub is_word : List ℕ → Bool
is_word [] = false
is_word (c ∷ cs) = is_letter c && all_where is_word_code cs

-- `$` also matches before a final newline.
unfoldable pub line : List ℕ → List ℕ
line [] = []
line (c ∷ []) = if c == 10 then [] else c ∷ []
line (c ∷ d ∷ cs) = c ∷ line (d ∷ cs)

-- The codes up to the first dot, and the segments after it.
unfoldable pub segments_from : List ℕ → List ℕ × List (List ℕ)
segments_from [] = ([], [])
segments_from (c ∷ cs) =
    let rest = segments_from cs in if c == 46 then ([], rest.0 ∷ rest.1) else (c ∷ rest.0, rest.1)

unfoldable pub segments : String → List (List ℕ)
segments key = let parts = segments_from (line (codes key)) in parts.0 ∷ parts.1

-- KEY_PATTERN, TWO_SEGMENT and _MODULE_PATTERN
unfoldable pub is_key : String → Bool
is_key key =
    let parts = segments key in
    all_where is_word parts && ((length parts == 2) || (length parts == 3))

unfoldable pub is_two_segment : String → Bool
is_two_segment key = let parts = segments key in all_where is_word parts && (length parts == 2)

unfoldable pub is_module : String → Bool
is_module label = is_word (line (codes label))

-- self.key.split(".", 1)[0]
unfoldable pub namespace : String → String
namespace String.[] = String.[]
namespace (String.◌∷◌ c s) =
    let rest = namespace s in if code c == 46 then String.[] else String.◌∷◌ c rest

unfoldable pub is_blank : String → Bool
is_blank s = is_empty (strip s)

abbrev unless : Bool → Problem → List Problem
unless true problem = []
unless false problem = problem ∷ []

abbrev is_none_of : List String → Bool
is_none_of [] = true
is_none_of (x ∷ xs) = false

unfoldable pub are_scopes : List String → Bool
are_scopes scopes = not (is_none_of scopes) && not (has_twice scopes) && are_in scopes all_scopes

module _ {N : Type 0} where
  unfoldable pub module_problems : SettingDef N → List Problem
  module_problems defn =
      if not (is_module defn.module_)
      then bad_module ∷ []
      else unless
          (str_eq (namespace defn.key) defn.module_
            || is_in (namespace defn.key) reserved_namespaces)
          foreign_namespace

  unfoldable pub text_problems : SettingDef N → List Problem
  text_problems defn =
      unless (not (is_blank defn.label)) empty_label
      ++ unless (not (is_blank defn.description)) empty_description
      ++ unless (not (is_blank defn.group)) empty_group
      ++ unless (not (is_blank defn.changed_by_event)) empty_changed_by_event

  -- Everything but the default.
  unfoldable pub declared_problems : SettingDef N → List Problem
  declared_problems defn =
      module_problems defn
      ++ text_problems defn
      ++ unless (not (is_none_of defn.used_by || any_where is_blank defn.used_by)) bad_used_by
      ++ unless (are_scopes defn.scopes) bad_scopes
      ++ unless (is_in defn.exposure exposures) bad_exposure

  unfoldable pub default_problems : Library N → SettingDef N → List Problem
  default_problems library defn =
      elim (coerce library defn (def_to_json library defn defn.default)) [
        | ok value ↦ []
        | err raised ↦ bad_default ∷ []
      ]

  unfoldable pub problems : Library N → SettingDef N → List Problem
  problems library defn =
      if not (is_key defn.key)
      then bad_key ∷ []
      else if is_two_segment defn.key && not (is_in (namespace defn.key) reserved_namespaces)
      then two_segments ∷ []
      else elim (declared_problems defn) [
        | [] ↦ default_problems library defn
        | problem ∷ more ↦ problem ∷ more
      ]
