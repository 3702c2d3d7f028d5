-- ===== src/Settings/Coercion.antt =====
-- The coercions of SettingDef in backend/core/settings_registry.py: what is written, what is read
-- back, and what a stored value of any kind is read as.
use django_base_x.Prelude.{
  ◌⊎◌, ◌&&◌, Option-cases, String, true, false, ◌≡◌, refl, Bool-cases, inl, inr, arith, subst,
}
use django_base_x.Prelude.Result.{Result, ok, err, ok-injective, >>=-eq-ok}
use django_base_x.Settings.Objects.{items_of, text, sequence, objects_of, Object, Raised, null}
use django_base_x.Settings.Types.{
  Library, SettingType, parse, parse_text, to_json, check, clamp, as_text, as_list, parts_of,
  parse_bool, parse_int, parse_bool_text, parse_int_text, bool, int, decimal, string, long_text,
  choice, str_list, json,
}
use django_base_x.Settings.Texts.{strip, lower_codes, same_codes, codes}
use django_base_x.Settings.Parsing.{LawfulLibrary, parse-to_json, parse-is_null, to_json-is_null}
use django_base_x.Settings.Clamping.{check-clamp, clamp-parse, clamp-check, clamp-is_null}
use django_base_x.Settings.Definition.{
  SettingDef, is_null, naming_key, parse_required, checked, coerce, coerce_text, read, def_to_json,
}

pub naming_key-ok : {A : Type 0} (r : Result Raised A) {x : A} → naming_key r ≡ ok x → r ≡ ok x
unfolding naming_key
naming_key-ok (ok value) e = e
naming_key-ok (err raised) e = absurd (ground (arith, e))

module _ {N : Type 0} (library : Library N) (defn : SettingDef N) where
  -- A value that both `coerce` and `read` give back as it is: None where it may be, or one that
  -- its type parses from its own JSON form and that lies within the bounds.
  IsProper : Object N → Type 0
  IsProper x =
      (parse_required library defn (def_to_json library defn x) ≡ ok x)
      × (is_null x ≡ false → check library defn.type_ x ≡ ok tt)

  parse_required-ok :
      (value x : Object N)
      → parse_required library defn value ≡ ok x
      → ((x ≡ null) × (defn.nullable ≡ true))
        ⊎ ((is_null x ≡ false) × (parse library defn.type_ value ≡ ok x))
  unfolding parse_required
  parse_required-ok value x e = elim (Bool-cases (is_null value)) [
    | inl t ↦ elim (Bool-cases defn.nullable) [
      | inl n ↦ inl (ground (arith, e, t, n), n)
      | inr n ↦ absurd (ground (arith, e, t, n))
    ]
    | inr t ↦
        let parsed : parse library defn.type_ value ≡ ok x =
          naming_key-ok (parse library defn.type_ value) (ground (arith, e, t)) in
        inr (parse-is_null library defn.type_ value x t parsed, parsed)
  ]

  to_json-null : (type_ : SettingType N) → to_json library type_ null ≡ null
  unfolding to_json as_text as_list items_of
  to_json-null bool = refl
  to_json-null (int min max) = refl
  to_json-null (decimal min max) = refl
  to_json-null (string max) = refl
  to_json-null (long_text max) = refl
  to_json-null (choice choices) = refl
  to_json-null (str_list choices) = refl
  to_json-null (json validator) = refl

  parse_required-null :
      (x : Object N)
      → x ≡ null
      → defn.nullable ≡ true
      → parse_required library defn (def_to_json library defn x) ≡ ok x
  unfolding parse_required def_to_json is_null
  parse_required-null x same n = rw (same, to_json-null defn.type_, n) refl

  parse_required-json :
      (x : Object N)
      → is_null x ≡ false
      → parse library defn.type_ (to_json library defn.type_ x) ≡ ok x
      → parse_required library defn (def_to_json library defn x) ≡ ok x
  unfolding parse_required def_to_json naming_key
  parse_required-json x solid again =
      rw (to_json-is_null library defn.type_ (to_json library defn.type_ x) x again solid, again)
        refl

  pub checked-ok :
      (parsed x : Object N)
      → checked library defn parsed ≡ ok x
      → (check library defn.type_ parsed ≡ ok tt) × (parsed ≡ x)
  unfolding checked
  checked-ok parsed x e =
      let (done, first, then_) = >>=-eq-ok (naming_key (check library defn.type_ parsed)) _ e in
      (naming_key-ok (check library defn.type_ parsed) first, ok-injective then_)

  coerce-IsProper :
      LawfulLibrary library → (value x : Object N) → coerce library defn value ≡ ok x → IsProper x
  unfolding coerce IsProper is_null
  coerce-IsProper laws value x e =
      let (parsed, first, then_) = >>=-eq-ok (parse_required library defn value) _ e in
      elim (parse_required-ok value parsed first) [
        | inl (same, n) ↦
            let kept : parsed ≡ x = ground (arith, then_, same) in
            subst IsProper kept
              (parse_required-null parsed same n, λ solid. ground (arith, solid, same))
        | inr (solid, shape) ↦
            let (within, kept) = checked-ok parsed x (ground (arith, then_, solid)) in
            subst IsProper kept (
              parse_required-json parsed solid
                  (parse-to_json library laws defn.type_ value parsed shape),
              λ _. within,
            )
      ]

  IsProper-coerce :
      (x : Object N) → IsProper x → coerce library defn (def_to_json library defn x) ≡ ok x
  unfolding coerce checked IsProper naming_key
  IsProper-coerce x proper = elim (Bool-cases (is_null x)) [
    | inl t ↦ rw (proper.0, t) refl
    | inr t ↦ rw (proper.0, t, proper.1 t) refl
  ]

  IsProper-read :
      (x : Object N) → IsProper x → read library defn (def_to_json library defn x) ≡ ok x
  unfolding read IsProper
  IsProper-read x proper = elim (Bool-cases (is_null x)) [
    | inl t ↦ rw (proper.0, t) refl
    | inr t ↦ rw (proper.0, t, check-clamp library defn.type_ x (proper.1 t)) refl
  ]

  read-IsProper :
      LawfulLibrary library
      → (z stored x : Object N) → check library defn.type_ z ≡ ok tt
      → read library defn stored ≡ ok x
      → IsProper x
  unfolding read IsProper is_null
  read-IsProper laws z stored x within e =
      let (parsed, first, then_) = >>=-eq-ok (parse_required library defn stored) _ e in
      elim (parse_required-ok stored parsed first) [
        | inl (same, n) ↦
            let kept : parsed ≡ x = ground (arith, then_, same) in
            subst IsProper kept
              (parse_required-null parsed same n, λ solid. ground (arith, solid, same))
        | inr (solid, shape) ↦
            let clamped : clamp library defn.type_ parsed ≡ ok x = ground (arith, then_, solid) in
            (
              parse_required-json x (clamp-is_null library defn.type_ parsed x clamped solid)
                  (clamp-parse library laws defn.type_ stored parsed x shape clamped),
              λ _. clamp-check library laws defn.type_ z parsed x within clamped,
            )
      ]

  -- What a write accepts is read back from its JSON form as the same value.
  pub coerce-read :
      LawfulLibrary library
      → (value x : Object N) → coerce library defn value ≡ ok x
      → read library defn (def_to_json library defn x) ≡ ok x
  coerce-read laws value x e = IsProper-read x (coerce-IsProper laws value x e)

  -- Where a write would accept some value other than None, so that the declared bounds are not
  -- inverted, a read returns only what a write would accept and coerce to the same value, whatever
  -- is stored: a row written before a bound existed does not get past it.
  pub read-coerce :
      LawfulLibrary library
      → (value z : Object N) → coerce library defn value ≡ ok z
      → is_null z ≡ false
      → (stored x : Object N) → read library defn stored ≡ ok x
      → coerce library defn (def_to_json library defn x) ≡ ok x
  unfolding IsProper
  read-coerce laws value z accepted solid stored x e =
      IsProper-coerce x
        (read-IsProper laws z stored x ((coerce-IsProper laws value z accepted).1 solid) e)

  parse_text-parse :
      (type_ : SettingType N) (word : String) (x : Object N)
      → parse_text library type_ word ≡ ok x
      → (value : Object N) × (parse library type_ value ≡ ok x)
  unfolding parse parse_text parse_bool parse_bool_text parse_int parse_int_text
  parse_text-parse bool word x e = (x, ground (arith, e))
  parse_text-parse (int min max) word x e = (x, ground (arith, e))
  parse_text-parse (decimal min max) word x e = (text word, e)
  parse_text-parse (string max) word x e = (text word, e)
  parse_text-parse (long_text max) word x e = (text word, e)
  parse_text-parse (choice choices) word x e = (text word, e)
  parse_text-parse (str_list choices) word x e = (sequence (objects_of (parts_of word)), e)
  parse_text-parse (json validator) word x e = elim (Option-cases (library.loads word)) [
    | inl t ↦ absurd (ground (arith, e, t))
    | inr (value, t) ↦ (value, ground (arith, e, t))
  ]

  -- A text of the command line that gives a value other than None gives one that the API accepts,
  -- as the same value.
  pub coerce_text-coerce :
      LawfulLibrary library
      → (word : String) (x : Object N) → coerce_text library defn word ≡ ok x
      → is_null x ≡ false
      → coerce library defn (def_to_json library defn x) ≡ ok x
  unfolding coerce_text is_null IsProper
  coerce_text-coerce laws word x e solid =
      elim (Bool-cases
        (defn.nullable && same_codes (lower_codes (codes (strip word))) (codes "null"))) [
          | inl t ↦ absurd (ground (arith, e, t, solid))
          | inr t ↦
              let (parsed, first, then_) =
                >>=-eq-ok (naming_key (parse_text library defn.type_ word)) (checked library defn)
                  (ground (arith, e, t)) in
              let (within, kept) = checked-ok parsed x then_ in
              let (value, shape) =
                parse_text-parse defn.type_ word parsed
                  (naming_key-ok (parse_text library defn.type_ word) first) in
              let again = parse-to_json library laws defn.type_ value parsed shape in
              IsProper-coerce x (
                subst (λ z. is_null z ≡ false → IsProper z) kept
                  (λ solid. (parse_required-json parsed solid again, λ _. within)) solid)
        ]
