-- ===== src/Settings/Texts.antt =====
-- The methods of `str` and `list` that backend/core/settings_registry.py calls: strip, lower,
-- split, `in`, and the digits that `int` reads.
use Prim.Native.Char.{code}
use django_base_x.Prelude.{
  ℕ, ◌+◌, ◌*◌, ◌-◌, String, Bool, true, false, ◌||◌, ◌&&◌, Option, none, some, List, [], ◌∷◌, leb,
  str_eq, any_where, all_where, is_empty, if◌then◌else◌, ◌==◌,
}
use django_base_x.Prelude.Int.{ℤ, pos, negsuc}

abbrev between : ℕ → ℕ → ℕ → Bool
between low high n = leb low n && leb n high

-- str.isspace of one code point
unfoldable pub is_space : ℕ → Bool
is_space n =
    between 9 13 n
    || between 28 32 n
    || (n == 133)
    || (n == 160)
    || (n == 5760)
    || between 8192 8202 n
    || (n == 8232)
    || (n == 8233)
    || (n == 8239)
    || (n == 8287)
    || (n == 12288)

unfoldable pub lstrip : String → String
lstrip String.[] = String.[]
lstrip (String.◌∷◌ c s) = let rest = lstrip s in if is_space (code c) then rest else String.◌∷◌ c s

unfoldable pub rstrip : String → String
rstrip String.[] = String.[]
rstrip (String.◌∷◌ c s) =
    let rest = rstrip s in
    if is_empty rest && is_space (code c) then String.[] else String.◌∷◌ c rest

-- s.strip()
unfoldable pub strip : String → String
strip s = rstrip (lstrip s)

-- the code points of a text
unfoldable pub codes : String → List ℕ
codes String.[] = []
codes (String.◌∷◌ c s) = code c ∷ codes s

-- lower() of the letters A to Z
unfoldable pub lower_code : ℕ → ℕ
lower_code n = if between 65 90 n then n + 32 else n

unfoldable pub same_codes : List ℕ → List ℕ → Bool
same_codes [] [] = true
same_codes [] (y ∷ ys) = false
same_codes (x ∷ xs) [] = false
same_codes (x ∷ xs) (y ∷ ys) = (x == y) && same_codes xs ys

unfoldable pub lower_codes : List ℕ → List ℕ
lower_codes [] = []
lower_codes (n ∷ ns) = lower_code n ∷ lower_codes ns

-- value in names
unfoldable pub is_in : String → List String → Bool
is_in value names = any_where (λ name. str_eq name value) names

-- len(set(names)) != len(names)
unfoldable pub has_twice : List String → Bool
has_twice [] = false
has_twice (name ∷ names) = is_in name names || has_twice names

-- set(names) <= set(allowed)
unfoldable pub are_in : List String → List String → Bool
are_in names allowed = all_where (λ name. is_in name allowed) names

unfoldable pub strip_all : List String → List String
strip_all [] = []
strip_all (name ∷ names) = strip name ∷ strip_all names

-- text.split(","): the text up to the first comma, and the parts after it
unfoldable pub split_from : String → String × List String
split_from String.[] = ("", [])
split_from (String.◌∷◌ c s) =
    let rest = split_from s in
    if code c == 44 then ("", rest.0 ∷ rest.1) else (String.◌∷◌ c rest.0, rest.1)

unfoldable pub split_commas : String → List String
split_commas text = let parts = split_from text in parts.0 ∷ parts.1

unfoldable pub is_digit : ℕ → Bool
is_digit n = between 48 57 n

-- int(text) of a text of digits, most significant first
unfoldable pub digits_value : ℕ → List ℕ → ℕ
digits_value value [] = value
digits_value value (digit ∷ digits) = digits_value (value * 10 + (digit - 48)) digits

-- re.fullmatch("[0-9]+", text)
unfoldable pub is_digits : List ℕ → Bool
is_digits [] = false
is_digits (digit ∷ digits) = is_digit digit && all_where is_digit digits

unfoldable pub negated : ℕ → ℤ
negated n = if n == 0 then pos 0 else negsuc (n - 1)

-- int(text), for a text that the pattern -?[0-9]+ matches
unfoldable pub int_of : List ℕ → Option ℤ
int_of [] = none
int_of (c ∷ cs) =
    if c == 45
    then (if is_digits cs then some (negated (digits_value 0 cs)) else none)
    else if is_digits (c ∷ cs)
    then some (pos (digits_value 0 (c ∷ cs)))
    else none
