-- ===== src/Witnesses/SettingsResults.antt =====
-- The settings theorems at the example declarations, rows and caches.
use django_base_x.Prelude.{
  Bool, true, false, [], ◌∷◌, ◌≡◌, refl, arith, any_where, all_where, first_where,
}
use django_base_x.Prelude.Int.{pos}
use django_base_x.Prelude.Result.{ok}
use django_base_x.Settings.Objects.{Object, null, boolean, integer, number, text, sequence, end}
use django_base_x.Settings.Types.{Library, SettingType, int, decimal}
use django_base_x.Settings.Definition.{SettingDef, coerce, coerce_text, read, stored, def_to_json}
use django_base_x.Settings.Definition.{naming_key, checked}
use django_base_x.Settings.Types.{parse_text, parse_int_text, check}
use django_base_x.Settings.Texts.{
  int_of, codes, strip, rstrip, lstrip, is_space, is_digits, is_digit, digits_value, same_codes,
  lower_codes, lower_code,
}
use django_base_x.Settings.Bounds.{check_bounds, is_below, is_above, less}
use django_base_x.Settings.Problems.{
  problems, is_key, segments, is_word, segments_from, line, is_letter, is_word_code, is_two_segment,
  declared_problems, module_problems, is_module, namespace, text_problems, is_blank, are_scopes,
  default_problems,
}
use django_base_x.Settings.Texts.{is_in, are_in, has_twice}
use django_base_x.Settings.Service.{entry_of, is_at, same_place, same_id}
use django_base_x.Settings.Coherence.{keeping}
use django_base_x.Settings.Coercion.{coerce-read, read-coerce, coerce_text-coerce}
use django_base_x.Settings.Service.{Cache, Resolved}
use django_base_x.Settings.Coherence.{IsCoherent}
use django_base_x.Settings.Effective.{effective, resolve_fresh-effective}
use django_base_x.Settings.Formed.{IsFormed, IsSound}
use django_base_x.Settings.Robust.{resolve_fresh-admissible}
use django_base_x.Settings.Resolve.{resolve_fresh}
use django_base_x.Witnesses.SettingsData.{
  two_numbers, two_numbers-Lawful, threshold, fee, odd_rows, all_well, no_database, warm,
}

accepts_fee : coerce two_numbers fee (text " 1.50 ") ≡ ok (number true)
unfolding coerce django_base_x.Settings.Definition.parse_required
    django_base_x.Settings.Definition.is_null django_base_x.Settings.Definition.naming_key
    django_base_x.Settings.Types.parse django_base_x.Settings.Types.parse_decimal
    django_base_x.Settings.Objects.text_of django_base_x.Settings.Texts.strip
    django_base_x.Settings.Texts.rstrip django_base_x.Settings.Texts.lstrip
    django_base_x.Settings.Texts.is_space django_base_x.Settings.Definition.checked
    django_base_x.Settings.Types.check django_base_x.Settings.Bounds.check_bounds
    django_base_x.Settings.Bounds.is_below django_base_x.Settings.Bounds.is_above
accepts_fee = refl

coerce-read_example :
    read two_numbers fee (def_to_json two_numbers fee (number true)) ≡ ok (number true)
coerce-read_example =
    coerce-read two_numbers fee two_numbers-Lawful (text " 1.50 ") (number true) accepts_fee

accepts_ten : coerce two_numbers threshold (integer (pos 10)) ≡ ok (integer (pos 10))
unfolding coerce django_base_x.Settings.Definition.parse_required
    django_base_x.Settings.Definition.is_null django_base_x.Settings.Definition.naming_key
    django_base_x.Settings.Types.parse django_base_x.Settings.Types.parse_int
    django_base_x.Settings.Definition.checked django_base_x.Settings.Types.check
    django_base_x.Settings.Bounds.check_bounds django_base_x.Settings.Bounds.is_below
    django_base_x.Settings.Bounds.less django_base_x.Settings.Bounds.is_above
accepts_ten = refl

reads_low : read two_numbers threshold (integer (pos 1)) ≡ ok (integer (pos 3))
unfolding read django_base_x.Settings.Definition.parse_required
    django_base_x.Settings.Definition.is_null django_base_x.Settings.Definition.naming_key
    django_base_x.Settings.Types.parse django_base_x.Settings.Types.parse_int
    django_base_x.Settings.Types.clamp django_base_x.Settings.Bounds.clamp_bounds
    django_base_x.Settings.Bounds.is_below django_base_x.Settings.Bounds.less
reads_low = refl

read-coerce_example :
    coerce two_numbers threshold (def_to_json two_numbers threshold (integer (pos 3)))
    ≡ ok (integer (pos 3))
unfolding django_base_x.Settings.Definition.is_null
read-coerce_example =
    read-coerce two_numbers threshold two_numbers-Lawful (integer (pos 10)) (integer (pos 10))
      accepts_ten refl (integer (pos 1)) (integer (pos 3)) reads_low

accepts_word : coerce_text two_numbers threshold " 42 " ≡ ok (integer (pos 42))
unfolding coerce_text naming_key parse_text parse_int_text int_of codes strip rstrip lstrip is_space
    is_digits is_digit all_where checked check check_bounds is_below is_above less digits_value
    same_codes lower_codes lower_code
accepts_word = refl

coerce_text-coerce_example :
    coerce two_numbers threshold (def_to_json two_numbers threshold (integer (pos 42)))
    ≡ ok (integer (pos 42))
unfolding django_base_x.Settings.Definition.is_null
coerce_text-coerce_example =
    coerce_text-coerce two_numbers threshold two_numbers-Lawful " 42 " (integer (pos 42))
      accepts_word refl

warm-IsCoherent : IsCoherent 100 odd_rows warm
unfolding IsCoherent entry_of first_where is_at same_place same_id keeping
warm-IsCoherent = (λ _. refl, (λ e. absurd (omega (arith, e)), tt))

resolve_fresh-effective_example :
    (after : Cache Bool) × (resolve_fresh two_numbers all_well 100 odd_rows threshold
        (("user", "u1") ∷ [])
        warm
      ≡ ok (
        effective two_numbers threshold (integer (pos 10)) odd_rows (("user", "u1") ∷ []),
        after,
      ))
    × IsCoherent 100 odd_rows after
unfolding read django_base_x.Settings.Definition.parse_required
    django_base_x.Settings.Definition.is_null def_to_json django_base_x.Settings.Types.to_json
    django_base_x.Settings.Definition.naming_key django_base_x.Settings.Types.parse
    django_base_x.Settings.Types.parse_int django_base_x.Settings.Types.clamp
    django_base_x.Settings.Bounds.clamp_bounds django_base_x.Settings.Bounds.is_below
    django_base_x.Settings.Bounds.less django_base_x.Settings.Bounds.is_above
resolve_fresh-effective_example =
    resolve_fresh-effective two_numbers all_well 100 odd_rows threshold (λ scope. refl)
      (integer (pos 10)) refl (("user", "u1") ∷ []) warm warm-IsCoherent

sound : problems two_numbers threshold ≡ []
unfolding problems is_key all_where segments is_word segments_from line codes is_letter is_word_code
    is_two_segment declared_problems module_problems is_module namespace is_in any_where
    text_problems is_blank are_scopes are_in has_twice default_problems is_digit is_space lstrip
    rstrip strip coerce django_base_x.Settings.Definition.parse_required
    django_base_x.Settings.Definition.is_null def_to_json django_base_x.Settings.Types.to_json
    naming_key django_base_x.Settings.Types.parse django_base_x.Settings.Types.parse_int checked
    check check_bounds is_below less is_above
sound = refl

warm-IsSound : IsSound warm
unfolding IsSound IsFormed
warm-IsSound = (tt, (tt, tt))

resolve_fresh-admissible_example :
    (resolved : Resolved Bool) × (after : Cache Bool) × (resolve_fresh two_numbers no_database 100
        odd_rows threshold
        (("user", "u1") ∷ [])
        warm
      ≡ ok (resolved, after))
    × (false ≡ false
        → coerce two_numbers threshold (def_to_json two_numbers threshold resolved.value)
          ≡ ok resolved.value)
unfolding django_base_x.Settings.Definition.is_null
resolve_fresh-admissible_example =
    resolve_fresh-admissible two_numbers no_database 100 odd_rows threshold (λ scope. refl)
      two_numbers-Lawful sound (("user", "u1") ∷ []) warm warm-IsSound
