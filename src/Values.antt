-- ===== src/Values.antt =====
-- The plain values of a JSON payload, of an outcome's evidence and of a finding's details.
use django_base_x.Prelude.{ℕ, String, List, Bool, true, false}
use django_base_x.Prelude.Int.{ℤ}

pub data Value : Type 0 where
  text : String → Value
  int : ℤ → Value
  -- a float, by its repr
  float : String → Value
  bool : Bool → Value
  null : Value
  -- any other object, by the name of its class
  object : String → Value

-- the key of a dict entry: a text, or another object
pub data Key : Type 0 where
  str : String → Key
  other : String → Key

-- A dict whose keys are texts.
abbrev pub Details : Type 0
Details = List (String × Value)

-- What a finding records under one name: a plain value, a dict of such, or an instant in ISO form.
pub data Detail : Type 0 where
  plain : Value → Detail
  nested : Details → Detail
  instant : ℕ → Detail

abbrev pub Report : Type 0
Report = List (String × Detail)

-- isinstance(value, (int, str, bool, type(None)))
unfoldable pub is_primitive : Value → Bool
is_primitive (text _) = true
is_primitive (int _) = true
is_primitive (bool _) = true
is_primitive null = true
is_primitive (float _) = false
is_primitive (object _) = false

-- isinstance(value, EVIDENCE_VALUES)
unfoldable pub is_evidence_value : Value → Bool
is_evidence_value (object _) = false
is_evidence_value (text _) = true
is_evidence_value (int _) = true
is_evidence_value (float _) = true
is_evidence_value (bool _) = true
is_evidence_value null = true
