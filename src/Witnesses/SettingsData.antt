-- ===== src/Witnesses/SettingsData.antt =====
-- Example settings: declarations, rows and caches, with two decimal numbers.
use django_base_x.Prelude.{
  String, Bool, true, false, Option, none, some, List, [], ◌∷◌, ◌≡◌, refl, str_eq, arith, ◌==◌,
  if◌then◌else◌,
}
use django_base_x.Prelude.Int.{pos}
use django_base_x.Settings.Objects.{Object, null, integer, number, sequence, end}
use django_base_x.Settings.Texts.{strip, lstrip, rstrip, is_space}
use django_base_x.Settings.Types.{Library, SettingType, int, decimal, invalid, infinite, finite}
use django_base_x.Settings.Definition.{SettingDef, stored}
use django_base_x.Settings.Parsing.{LawfulLibrary}
use django_base_x.Settings.Service.{Row, Cache, Faults, found}
use django_base_x.Settings.Resolve.{place_of}
use django_base_x.Settings.State.{State, Target, Registry}

-- The numbers 0 (false) and 1.50 (true).
abbrev pub two_numbers : Library Bool
two_numbers = record {
  decimal = λ s.
      if str_eq s "0"
      then finite false
      else if str_eq s "1.50"
      then finite true
      else if str_eq s "Infinity"
      then infinite
      else invalid;
  str = λ n. if n then "1.50" else "0";
  show = λ value. "";
  lt = λ a b. if a then false else b;
  loads = λ s.
      if str_eq s "null" then some null else if str_eq s "[]" then some (sequence end) else none;
}

decimal-str : (n : Bool) → two_numbers.decimal (strip (two_numbers.str n)) ≡ finite n
unfolding strip lstrip rstrip is_space
decimal-str true = refl
decimal-str false = refl

lt_irreflexive : (n : Bool) → two_numbers.lt n n ≡ false
lt_irreflexive true = refl
lt_irreflexive false = refl

pub two_numbers-Lawful : LawfulLibrary two_numbers
two_numbers-Lawful = record {
  decimal-str = decimal-str;
  lt_irreflexive = lt_irreflexive;
  lt_within = λ low high n. ground arith;
}

abbrev setting : String → SettingType Bool → Object Bool → SettingDef Bool
setting key type_ default = record {
  key = key;
  type_ = type_;
  default = default;
  label = "Failed sign-ins before an account is locked";
  description = "Lower locks attackers out sooner.";
  group = "Sign-in protection";
  module_ = "users";
  changed_by_event = "A credential-stuffing wave";
  used_by = "Sign-in" ∷ [];
  scopes = "user" ∷ "platform" ∷ [];
  exposure = "private";
  nullable = false;
}

-- Int(min=3, max=100), default 10
abbrev pub threshold : SettingDef Bool
threshold =
    setting "security.lockout.threshold" (int (some (pos 3)) (some (pos 100))) (integer (pos 10))

abbrev pub fee : SettingDef Bool
fee = setting "users.billing.fee" (decimal (some false) none) (number false)

abbrev pub threshold_row : Option String → String → Object Bool → Row Bool
threshold_row scope_id scope_type value = record {
  place = place_of "security.lockout.threshold" scope_type scope_id;
  value = value;
  is_locked = false;
  updated_by = none;
}

-- The platform's row is below the bound, and the user's was not written by the service.
abbrev pub odd_rows : List (Row Bool)
odd_rows =
    threshold_row none "platform" (stored (integer (pos 1)))
    ∷ threshold_row (some "u1") "user" (integer (pos 5))
    ∷ []

abbrev pub all_well : String → Faults
all_well scope = record {
  reads_generation = true;
  adds_generation = true;
  rereads_generation = true;
  gets_entry = true;
  queries = true;
  sets_entry = true;
  escapes = false;
}

abbrev pub no_database : String → Faults
no_database scope = record {
  reads_generation = true;
  adds_generation = true;
  rereads_generation = true;
  gets_entry = false;
  queries = false;
  sets_entry = true;
  escapes = false;
}

-- The platform's row as generation 7 has it, and an older value.
abbrev pub warm : Cache Bool
warm = record {
  generation = some 7;
  slots =
      record {
        generation = 7;
        place = place_of "security.lockout.threshold" "platform" none;
        entry = found (stored (integer (pos 1))) false;
      }
      ∷ record {
        generation = 6;
        place = place_of "security.lockout.threshold" "platform" none;
        entry = found (stored (integer (pos 50))) true;
      }
      ∷ [];
}

abbrev pub registry : Registry Bool
registry = record { defs = fee ∷ threshold ∷ []; tenant_resolver = none }

abbrev pub to_threshold : Target
to_threshold = record {
  key = "security.lockout.threshold";
  scope = "platform";
  scope_id = none;
  actor = some "admin";
  reason = "a wave";
}

abbrev pub begun : State Bool
begun = record {
  rows = threshold_row none "platform" (stored (integer (pos 1))) ∷ [];
  cache = warm;
  snapshot = some [];
  waiting = [];
  audit = [];
}

-- True for two integers that are equal.
abbrev pub same_integer : Object Bool → Object Bool → Bool
same_integer (integer (pos a)) (integer (pos b)) = a == b
same_integer x y = false

pub same_integer-exact : (x y : Object Bool) → same_integer x y ≡ true → x ≡ y
same_integer-exact x y e = ground (arith, e)
