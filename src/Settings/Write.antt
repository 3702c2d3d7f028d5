-- ===== src/Settings/Write.antt =====
-- Writing in backend/core/settings_service.py: set_value and reset, and resolve_setting with the
-- request's snapshot. `raced` is the row of a concurrent first write, which makes the create fail.
-- `same` is Python's == on two values.
use django_base_x.Prelude.{
  ℕ, String, Bool, true, false, not, ◌&&◌, Option, none, some, [], ◌∷◌, ◌++◌, first_where,
  filter_by, update_where, str_eq, or_else, if◌then◌else◌,
}
use django_base_x.Prelude.Result.{Result, ok, err, ◌>>=◌}
use django_base_x.Settings.Objects.{saved, Object, Raised, setting_invalid, locked_at_platform_only}
use django_base_x.Settings.Types.{Library}
use django_base_x.Settings.Definition.{SettingDef, coerce, read, stored, def_to_json}
use django_base_x.Settings.Service.{Place, Row, Cache, Faults, Resolved, is_at}
use django_base_x.Settings.Resolve.{User, place_of, resolved_at, scope_ids, resolve_fresh}
use django_base_x.Settings.State.{
  State, Target, Registry, setting_changed, setting_reset, definition, check_scope, changed,
  old_value, change_of, overwritten, same_flag, recall, remember,
}

-- getattr(user, "pk", None)
unfoldable pub pk_of : Option User → Option ℕ
pk_of none = none
pk_of (some user) = user.pk

module _ {N : Type 0} where
  abbrev pub settled : String → Option User → Resolved N → Cache N → State N → State N
  settled key user resolved cache state = record {
    rows = state.rows;
    cache = cache;
    snapshot = remember key (pk_of user) resolved state.snapshot;
    waiting = state.waiting;
    audit = state.audit;
  }

module _ {N : Type 0} (library : Library N) (same : Object N → Object N → Bool)
    (registry : Registry N) where
  -- Resolved(key, defn.read(new), scope, locked)
  unfoldable pub result :
      SettingDef N → Object N → String → Bool → State N → Result Raised (Resolved N × State N)
  result defn new scope locked state =
      read library defn new >>= λ value. ok (resolved_at defn value scope locked, state)

  module _ (reached : Bool) (now : ℕ) where
    -- set_value where a row is there
    unfoldable pub update_row :
        SettingDef N
        → Target
        → Option Bool
        → Place
        → Object N
        → Row N
        → State N
        → Result Raised (Resolved N × State N)
    update_row defn target locked place new row state =
        let is_locked = or_else locked row.is_locked in
        if same (old_value row) new && same_flag is_locked row.is_locked
        then result defn new target.scope row.is_locked state
        else result defn new target.scope is_locked (
            changed reached now (change_of setting_changed target place (old_value row) new)
              (update_where (is_at place) (overwritten new is_locked target.actor) state.rows)
              state)

    -- set_value where none is there, and the create succeeds
    unfoldable pub create_row :
        SettingDef N
        → Target
        → Option Bool
        → Place
        → Object N
        → State N
        → Result Raised (Resolved N × State N)
    create_row defn target locked place new state =
        let is_locked = or_else locked false in
        let row : Row N = record {
          place = place;
          value = saved (stored new);
          is_locked = is_locked;
          updated_by = target.actor;
        } in
        result defn new target.scope is_locked (
          changed reached now
            (change_of setting_changed target place (def_to_json library defn defn.default) new)
            (state.rows ++ (row ∷ [])) state)

    abbrev pub joined_by : Row N → State N → State N
    joined_by row state = record {
      rows = state.rows ++ (row ∷ []);
      cache = state.cache;
      snapshot = state.snapshot;
      waiting = state.waiting;
      audit = state.audit;
    }

    unfoldable pub store_value :
        SettingDef N
        → Target
        → Option Bool
        → Option (Row N)
        → Place
        → Object N
        → State N
        → Result Raised (Resolved N × State N)
    store_value defn target locked raced place new state =
        elim (first_where (is_at place) state.rows) [
          | some row ↦ update_row defn target locked place new row state
          | none ↦ elim raced [
            | none ↦ create_row defn target locked place new state
            | some row ↦ update_row defn target locked place new row (joined_by row state)
          ]
        ]

    -- set_value, from after the declaration is found
    unfoldable pub write_declared :
        Target
        → Object N
        → Option Bool
        → Option (Row N)
        → State N
        → SettingDef N
        → Result Raised (Resolved N × State N)
    write_declared target value locked raced state defn =
        check_scope registry defn target.scope target.scope_id >>= λ scope_id.
        if or_else locked false && not (str_eq target.scope "platform")
        then err (setting_invalid locked_at_platform_only)
        else coerce library defn value >>= λ coerced.
            store_value defn target locked raced (place_of target.key target.scope scope_id)
              (def_to_json library defn coerced) state

    unfoldable pub set_value :
        Target
        → Object N
        → Option Bool
        → Option (Row N)
        → State N
        → Result Raised (Resolved N × State N)
    set_value target value locked raced state = definition registry target.key >>= λ defn.
        write_declared target value locked raced state defn

    unfoldable pub reset : Target → State N → Result Raised (Bool × State N)
    reset target state = definition registry target.key >>= λ defn.
        check_scope registry defn target.scope target.scope_id >>= λ scope_id.
        let place : Place = place_of target.key target.scope scope_id in
        elim (first_where (is_at place) state.rows) [
          | none ↦ ok (false, state)
          | some row ↦ ok (
            true,
            changed reached now
                (change_of setting_reset target place (old_value row)
                  (def_to_json library defn defn.default))
                (filter_by (λ r. not (is_at place r)) state.rows) state,
          )
        ]

  unfoldable pub resolve_setting :
      (String → Faults) → ℕ → String → Option User → State N → Result Raised (Resolved N × State N)
  resolve_setting faults now key user state = definition registry key >>= λ defn.
      elim (recall key (pk_of user) state.snapshot) [
        | some resolved ↦ ok (resolved, state)
        | none ↦
            resolve_fresh library faults now state.rows defn
              (scope_ids registry.tenant_resolver defn.scopes user) state.cache
            >>= λ answer. ok (answer.0, settled key user answer.0 answer.1 state)
      ]
