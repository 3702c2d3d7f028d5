-- ===== src/Settings/Written.antt =====
-- The row, the cache and the result that a write at the platform leaves, for set_value of
-- backend/core/settings_service.py.
use django_base_x.Prelude.{
  first_where-update_where, first_where-snoc, ℕ, String, Bool, true, false, Option, none, some,
  List, [], ◌∷◌, ◌++◌, ◌≡◌, refl, sym, ◌∙◌, ◌&&◌, if◌then◌else◌, ap, subst, Bool-cases,
  Option-cases, inl, inr, arith, first_where, update_where, str_eq, eq_iff, eq_refl, or_else,
  first_where-some, All-always,
}
use django_base_x.Prelude.Result.{ok, >>=-eq-ok, ok-injective}
use django_base_x.Settings.Objects.{Object, saved}
use django_base_x.Settings.Types.{Library}
use django_base_x.Settings.Definition.{SettingDef, read, unwrap, stored, def_to_json}
use django_base_x.Settings.Service.{
  Place, Row, Resolved, found, is_at, entry_of, same_place, same_id,
}
use django_base_x.Settings.Resolve.{resolved_at}
use django_base_x.Settings.Coherence.{IsCoherent, IsBehind, bump-IsCoherent}
use django_base_x.Settings.State.{
  Change, change_of, setting_changed, State, Target, Registry, definition, changed, old_value,
  overwritten, same_flag,
}
use django_base_x.Settings.Write.{result, update_row, create_row}

module _ {A : Type 0} where
  then-branch : {b : Bool} (x y : A) {z : A} → b ≡ true → (if b then x else y) ≡ z → x ≡ z
  then-branch x y {z} t e = subst (λ c. (if c then x else y) ≡ z) t e

  pub else-branch : {b : Bool} (x y : A) {z : A} → b ≡ false → (if b then x else y) ≡ z → y ≡ z
  else-branch x y {z} t e = subst (λ c. (if c then x else y) ≡ z) t e

same_flag-eq : (a b : Bool) → same_flag a b ≡ true → a ≡ b
unfolding same_flag
same_flag-eq true b e = sym e
same_flag-eq false true e = absurd (cc)
same_flag-eq false false e = refl

module _ {N : Type 0} where
  -- The service wrote the row.
  unfoldable pub IsWrapped : Row N → Type 0
  IsWrapped row = (value : Object N) × (row.value ≡ stored value)

  old_value-stored : (row : Row N) → IsWrapped row → row.value ≡ stored (old_value row)
  unfolding IsWrapped old_value unwrap stored
  old_value-stored row (value, e) = rw e refl

  saved-stored : (new : Object N) → saved new ≡ new → saved (stored new) ≡ stored new
  unfolding saved stored
  saved-stored new plain = rw plain refl

  pub definition-key :
      (registry : Registry N) (key : String) (defn : SettingDef N)
      → definition registry key ≡ ok defn
      → defn.key ≡ key
  unfolding definition
  definition-key registry key defn e =
      elim (Option-cases (first_where (λ d. str_eq d.key key) registry.defs)) [
        | inl n ↦ absurd (ground (arith, e, n))
        | inr (d, n) ↦
            let (_, named) =
              first_where-some (λ _. Unit {0}) (λ d. str_eq d.key key) registry.defs d
                (All-always (λ _. Unit {0}) (λ _. tt) registry.defs) n in
            let same : d ≡ defn = ground (arith, e, n) in
            subst (λ (w : SettingDef N). w.key ≡ key) same ((eq_iff d.key key).0 named)
      ]

same_id-itself : (a : Option String) → same_id a a ≡ true
unfolding same_id
same_id-itself none = refl
same_id-itself (some a) = eq_refl a

pub same_place-itself : (p : Place) → same_place p p ≡ true
unfolding same_place
same_place-itself p = rw (eq_refl p.key, eq_refl p.scope_type, same_id-itself p.scope_id) refl

module _ {N : Type 0} where
  entry_of-some :
      (rows : List (Row N)) (place : Place) (row : Row N)
      → first_where (is_at place) rows ≡ some row
      → entry_of rows place ≡ found row.value row.is_locked
  unfolding entry_of
  entry_of-some rows place row e = rw (entry_of, e) refl

module _ {N : Type 0} where
  changed-IsCoherent :
      (now : ℕ) (change : Change N) (rows : List (Row N)) (state : State N)
      → IsBehind now state.cache
      → IsCoherent now
          (changed true now change rows state).rows
          (changed true now change rows state).cache
  unfolding changed
  changed-IsCoherent now change rows state behind = bump-IsCoherent now rows state.cache behind

  update-entry :
      (place : Place) (new : Object N) (locked : Bool) (actor : Option String) (rows : List (Row N))
      (row : Row N)
      → saved new ≡ new
      → first_where (is_at place) rows ≡ some row
      → entry_of (update_where (is_at place) (overwritten new locked actor) rows) place
        ≡ found (stored new) locked
  unfolding overwritten is_at
  update-entry place new locked actor rows row plain here =
      entry_of-some (update_where (is_at place) (overwritten new locked actor) rows) place
        (overwritten new locked actor row)
        (first_where-update_where (is_at place) (overwritten new locked actor) (λ y. refl) rows row
          here)
      ∙ ap (λ v. found v locked) (saved-stored new plain)

module _ {N : Type 0} (library : Library N) (same : Object N → Object N → Bool)
    (registry : Registry N) where
  -- What a write leaves: the row at the place holds the new value, the cache is true to the rows,
  -- and the result is what the row reads as.
  unfoldable pub IsWritten : ℕ → SettingDef N → Place → Object N → Resolved N → State N → Type 0
  IsWritten now defn place new r after =
      (locked : Bool) × (x : Object N) × (entry_of after.rows place ≡ found (stored new) locked)
      × (read library defn new ≡ ok x)
      × (r ≡ resolved_at defn x "platform" locked)
      × IsCoherent now after.rows after.cache

  result-IsWritten :
      (now : ℕ) (defn : SettingDef N) (place : Place) (new : Object N) (locked : Bool)
      (r : Resolved N) (state after : State N)
      → entry_of state.rows place ≡ found (stored new) locked
      → IsCoherent now state.rows state.cache
      → result library same registry defn new "platform" locked state ≡ ok (r, after)
      → IsWritten now defn place new r after
  unfolding IsWritten result
  result-IsWritten now defn place new locked r state after there coherent e =
      let (x, reads, then_) = >>=-eq-ok (read library defn new) _ e in
      let pair = ok-injective then_ in
      let kept : state ≡ after = ap (λ (q : Resolved N × State N). q.1) pair in
      (
        locked,
        x,
        subst (λ (w : State N). entry_of w.rows place ≡ found (stored new) locked) kept there,
        reads,
        sym (ap (λ (q : Resolved N × State N). q.0) pair),
        subst (λ (w : State N). IsCoherent now w.rows w.cache) kept coherent,
      )

  pub update_row-IsWritten :
      (now : ℕ) (defn : SettingDef N) (target : Target) (locked : Option Bool) (place : Place)
      (new : Object N) (row : Row N) (r : Resolved N) (state after : State N)
      → target.scope ≡ "platform"
      → first_where (is_at place) state.rows ≡ some row
      → IsWrapped row
      → saved new ≡ new
      → (same (old_value row) new ≡ true → old_value row ≡ new)
      → IsBehind now state.cache
      → IsCoherent now state.rows state.cache
      → update_row library same registry true now defn target locked place new row state
        ≡ ok (r, after)
      → IsWritten now defn place new r after
  unfolding update_row changed
  update_row-IsWritten now defn target locked place new row r state after at here wrapped plain
        exact behind coherent e =
      let is_locked = or_else locked row.is_locked in
      elim (Bool-cases (same (old_value row) new && same_flag is_locked row.is_locked)) [
        | inl t ↦
            let held : row.value ≡ stored new =
              old_value-stored row wrapped ∙ ap stored (exact (ground (arith, t))) in
            result-IsWritten now defn place new row.is_locked r state after
              (entry_of-some state.rows place row here ∙ ap (λ v. found v row.is_locked) held)
              coherent
              (subst
                (λ scope.
                  result library same registry defn new scope row.is_locked state ≡ ok (r, after))
                at (then-branch _ _ t e))
        | inr t ↦
            let rows : List (Row N) =
              update_where (is_at place) (overwritten new is_locked target.actor) state.rows in
            let next : State N =
              changed true now (change_of setting_changed target place (old_value row) new) rows
                state in
            result-IsWritten now defn place new is_locked r next after
              (update-entry place new is_locked target.actor state.rows row plain here)
              (changed-IsCoherent now (change_of setting_changed target place (old_value row) new)
                rows state behind)
              (subst
                (λ scope.
                  result library same registry defn new scope is_locked next ≡ ok (r, after))
                at (else-branch _ _ t e))
      ]

  pub create_row-IsWritten :
      (now : ℕ) (defn : SettingDef N) (target : Target) (locked : Option Bool) (place : Place)
      (new : Object N) (r : Resolved N) (state after : State N)
      → target.scope ≡ "platform"
      → first_where (is_at place) state.rows ≡ none
      → saved new ≡ new
      → IsBehind now state.cache
      → create_row library same registry true now defn target locked place new state ≡ ok (r, after)
      → IsWritten now defn place new r after
  unfolding create_row is_at same_place changed
  create_row-IsWritten now defn target locked place new r state after at nowhere plain behind e =
      let is_locked = or_else locked false in
      let row : Row N = record {
        place = place;
        value = saved (stored new);
        is_locked = is_locked;
        updated_by = target.actor;
      } in
      let change =
        change_of setting_changed target place (def_to_json library defn defn.default) new in
      let next : State N = changed true now change (state.rows ++ (row ∷ [])) state in
      result-IsWritten now defn place new is_locked r next after
        (entry_of-some (state.rows ++ (row ∷ [])) place row
            (first_where-snoc (is_at place) state.rows row nowhere (same_place-itself place))
          ∙ ap (λ v. found v is_locked) (saved-stored new plain))
        (changed-IsCoherent now change (state.rows ++ (row ∷ [])) state behind)
        (subst (λ scope. result library same registry defn new scope is_locked next ≡ ok (r, after))
          at e)
