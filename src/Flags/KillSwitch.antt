-- ===== src/Flags/KillSwitch.antt =====
-- What a write of the switch by set_flag of backend/core/flags.py makes of the flag.
use django_base_x.Prelude.{
  ℕ, ◌≤◌, update_where, String, Bool, true, false, Option, none, some, List, [], ◌∷◌, ◌++◌, ◌≡◌,
  refl, ◌∙◌, subst, inl, inr, Bool-cases, Option-cases, arith, str_eq, eq_iff, eq_refl, first_where,
  first_where-update_where, first_where-snoc,
}
use django_base_x.Prelude.Result.{ok}
use django_base_x.Flags.Resolution.{Flag, Caller, is_among, find, is_on}
use django_base_x.Flags.Cache.{Faults}
use django_base_x.Flags.Answers.{answer_of, flag_enabled}
use django_base_x.Flags.Coherence.{IsBehind, IsCoherent, bump_generation-IsCoherent, row_of-rows}
use django_base_x.Flags.Setting.{
  Changes, Store, applied, stamped, created, same_shown, shown, update_flag, create_flag, written,
  joined_by, store_flag, set_flag,
}

same_shown-enabled : (a b : Flag) → same_shown (shown a) (shown b) ≡ true → a.enabled ≡ b.enabled
unfolding same_shown shown
same_shown-enabled a b e = ground (arith, e)

-- The row of the key has the switch, and the cache is true to the rows.
Switched : ℕ → String → Bool → Store → Type 0
Switched now key on store =
    (flag : Flag) × (find store.0 key ≡ some flag)
    × (flag.enabled ≡ on)
    × IsCoherent now store.0 store.2

applied-enabled :
    (changes : Changes) (flag : Flag) (on : Bool)
    → changes.enabled ≡ some on
    → (applied changes flag).enabled ≡ on
unfolding applied
applied-enabled changes flag on asked = rw asked refl

update_flag-Switched :
    (now : ℕ) (key : String) (actor : Option String) (reason : String) (changes : Changes)
    (flag : Flag) (store : Store) (on : Bool)
    → IsBehind now store.2
    → IsCoherent now store.0 store.2
    → find store.0 key ≡ some flag
    → changes.enabled ≡ some on
    → Switched now key on (update_flag true now key actor reason changes flag store)
unfolding update_flag find applied Switched written
update_flag-Switched now key actor reason changes flag store on behind coherent here asked =
    elim (Bool-cases (same_shown (shown flag) (shown (applied changes flag)))) [
      | inl t ↦ rw t (
        flag,
        here,
        same_shown-enabled flag (applied changes flag) t ∙ applied-enabled changes flag on asked,
        coherent,
      )
      | inr t ↦ rw t (
        stamped actor (applied changes flag),
        first_where-update_where (λ row. str_eq row.key key)
            (λ row. stamped actor (applied changes row)) (λ row. refl) store.0 flag here,
        rw asked refl,
        bump_generation-IsCoherent now
            (update_where (λ row. str_eq row.key key) (λ row. stamped actor (applied changes row))
              store.0)
            store.2 behind,
      )
    ]

create_flag-Switched :
    (now : ℕ) (key : String) (actor : Option String) (reason : String) (changes : Changes)
    (store : Store) (on : Bool)
    → IsBehind now store.2
    → find store.0 key ≡ none
    → changes.enabled ≡ some on
    → Switched now key on (create_flag true now key actor reason changes store)
unfolding create_flag find created applied Switched written
create_flag-Switched now key actor reason changes store on behind nowhere asked = (
  created key actor changes,
  first_where-snoc (λ row. str_eq row.key key) store.0 (created key actor changes) nowhere
      (eq_refl key),
  rw asked refl,
  bump_generation-IsCoherent now (store.0 ++ (created key actor changes ∷ [])) store.2 behind,
)

-- The rows that the transaction finds, with those of a rival that committed first.
abbrev pub met : Option Flag → List Flag → List Flag
met none rows = rows
met (some flag) rows = rows ++ (flag ∷ [])

store_flag-Switched :
    (now : ℕ) (key : String) (actor : Option String) (reason : String) (changes : Changes)
    (raced : Option Flag) (store : Store) (on : Bool)
    → ((flag : Flag) → raced ≡ some flag → (flag.key ≡ key) × (find store.0 key ≡ none))
    → IsBehind now store.2
    → IsCoherent now (met raced store.0) store.2
    → changes.enabled ≡ some on
    → Switched now key on (store_flag true now key actor reason changes raced store)
unfolding store_flag first_where find joined_by
store_flag-Switched now key actor reason changes none store on rival behind coherent asked =
    elim (Option-cases (find store.0 key)) [
      | inr (flag, n) ↦
          rw (store_flag, n)
            (update_flag-Switched now key actor reason changes flag store on behind coherent n
              asked)
      | inl n ↦
          rw (store_flag, n)
            (create_flag-Switched now key actor reason changes store on behind n asked)
    ]
store_flag-Switched now key actor reason changes (some flag) store on rival behind coherent asked =
    let (same, n) = rival flag refl in
    rw (store_flag, n)
      (update_flag-Switched now key actor reason changes flag (joined_by true now flag store) on
        behind coherent
        (first_where-snoc (λ row. str_eq row.key key) store.0 flag n ((eq_iff flag.key key).1 same))
        asked)

-- Where the cache answers the write and was true to the rows that the transaction met, a set_flag
-- that returns with enabled=False leaves the flag off, whatever its targets, for every caller and
-- tenant that reads it in the same transaction and whatever fails in that read; also where the
-- cache held the enabled row, where a concurrent first write won, and where nothing changed.
pub set_flag-off :
    (registered : List String) (now : ℕ) (key : String) (actor : Option String) (reason : String)
    (changes : Changes) (raced : Option Flag) (store after : Store)
    → ((flag : Flag) → raced ≡ some flag → (flag.key ≡ key) × (find store.0 key ≡ none))
    → IsBehind now store.2
    → IsCoherent now (met raced store.0) store.2
    → changes.enabled ≡ some false
    → set_flag true now registered key actor reason changes raced store ≡ ok after
    → (faults : Faults) (later : ℕ) (user : Option Caller) (tenant : Option String) → now ≤ later
    → (flag_enabled registered faults later after.0 key user tenant after.2).0 ≡ false
unfolding set_flag flag_enabled answer_of is_on Switched
set_flag-off registered now key actor reason changes raced store after rival behind coherent asked e
      faults later user tenant le =
    elim (Bool-cases (is_among key registered)) [
      | inr r ↦ rw r refl
      | inl r ↦
          let kept : store_flag true now key actor reason changes raced store ≡ after =
            ground (arith, e, r) in
          let (flag, n, off, true_) = subst (Switched now key false) kept (
            store_flag-Switched now key actor reason changes raced store false rival behind coherent
              asked) in
          elim (row_of-rows faults now later after.0 key after.2 le true_) [
            | inl same ↦ rw (r, same, n, off) refl
            | inr (gone, failed) ↦ rw (r, gone) refl
          ]
    ]
