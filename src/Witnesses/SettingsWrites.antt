-- ===== src/Witnesses/SettingsWrites.antt =====
-- The settings theorems on writes, at the example state.
use django_base_x.Prelude.{
  subst, Bool, true, false, none, some, [], ◌∷◌, ◌≡◌, refl, arith, first_where, update_where,
  filter_by,
}
use django_base_x.Prelude.Int.{pos}
use django_base_x.Prelude.Result.{ok, ok-injective}
use django_base_x.Prelude.{any_where}
use django_base_x.Settings.Texts.{is_in}
use django_base_x.Settings.Definition.{parse_required, is_null, naming_key, checked, read, unwrap}
use django_base_x.Settings.Types.{parse, parse_int, check, clamp, to_json}
use django_base_x.Settings.Bounds.{check_bounds, is_below, is_above, less, clamp_bounds}
use django_base_x.Settings.Service.{current_generation, cached, is_slot}
use django_base_x.Settings.Resolve.{
  value_of, skipping, entry_locked, below_lock, first_found, platform_found, scope_ids, user_steps,
  tenant_steps,
}
use django_base_x.Settings.State.{forget, recall, remember}
use django_base_x.Settings.Objects.{Object, integer, saved}
use django_base_x.Settings.Definition.{SettingDef, coerce, stored, def_to_json}
use django_base_x.Settings.Service.{
  Cache, is_at, same_place, same_id, bump_generation, entry_of, lookup,
}
use django_base_x.Settings.Coherence.{IsCoherent, IsBehind, keeping, next_generation}
use django_base_x.Settings.Resolve.{place_of, resolve_fresh, resolved_at}
use django_base_x.Settings.State.{
  State, Change, setting_changed, change_of, definition, check_scope, changed, commit, old_value,
  overwritten, same_flag,
}
use django_base_x.Settings.Write.{
  set_value, write_declared, store_value, update_row, result, resolve_setting,
}
use django_base_x.Settings.Written.{IsWrapped}
use django_base_x.Settings.WriteThenRead.{set_value-resolve}
use django_base_x.Settings.Staleness.{Follows, with_cache, commit-IsCoherent}
use django_base_x.Settings.Snapshot.{with_store, resolve_setting-again}
use django_base_x.Witnesses.SettingsData.{
  two_numbers, threshold, threshold_row, all_well, no_database, warm, registry, to_threshold, begun,
  same_integer, same_integer-exact,
}

abbrev twenty : Object Bool
twenty = integer (pos 20)

abbrev the_change : Change Bool
the_change =
    change_of setting_changed to_threshold (place_of "security.lockout.threshold" "platform" none)
      (integer (pos 1)) twenty

abbrev written : State Bool
written = record {
  rows =
      record {
        place = place_of "security.lockout.threshold" "platform" none;
        value = stored twenty;
        is_locked = false;
        updated_by = some "admin";
      }
      ∷ [];
  cache = record { generation = some 8; slots = warm.slots };
  snapshot = some [];
  waiting = the_change ∷ [];
  audit = [];
}

sets :
    set_value two_numbers same_integer registry true 100 to_threshold twenty none none begun
    ≡ ok (resolved_at threshold twenty "platform" false, written)
unfolding set_value definition first_where write_declared check_scope is_in any_where coerce
    parse_required is_null naming_key parse parse_int checked check check_bounds is_below less
    is_above def_to_json to_json store_value update_row is_at same_place same_id old_value unwrap
    stored same_flag result read clamp clamp_bounds changed bump_generation forget update_where
    overwritten filter_by saved
sets = refl

abbrev quiet : State Bool
quiet = record { rows = begun.rows; cache = warm; snapshot = none; waiting = []; audit = [] }

-- The state after a first read, of the value 3 to which the row's 1 is clamped.
abbrev remembered : State Bool
remembered = record {
  rows = begun.rows;
  cache = warm;
  snapshot = some (
      record {
        key = "security.lockout.threshold";
        pk = none;
        resolved = resolved_at threshold (integer (pos 3)) "platform" false;
      }
      ∷ []);
  waiting = [];
  audit = [];
}

reads :
    resolve_setting two_numbers same_integer registry all_well 100 "security.lockout.threshold" none
      begun
    ≡ ok (resolved_at threshold (integer (pos 3)) "platform" false, remembered)
unfolding django_base_x.Settings.Service.looked resolve_setting definition first_where recall
    resolve_fresh platform_found is_in any_where value_of lookup current_generation cached is_slot
    same_place same_id skipping unwrap read parse_required is_null naming_key parse parse_int clamp
    clamp_bounds is_below is_above less stored entry_locked below_lock first_found scope_ids
    user_steps tenant_steps remember django_base_x.Settings.Write.pk_of
reads = refl

warm-IsBehind : IsBehind 100 warm
unfolding IsBehind next_generation
warm-IsBehind = (omega arith, (omega arith, tt))

begun-IsCoherent : IsCoherent 100 begun.rows warm
unfolding IsCoherent entry_of first_where is_at same_place same_id keeping
begun-IsCoherent = (λ _. refl, (λ e. absurd (omega (arith, e)), tt))

begun-IsWrapped : IsWrapped (threshold_row none "platform" (stored (integer (pos 1))))
unfolding IsWrapped
begun-IsWrapped = (integer (pos 1), refl)

declares : definition registry "security.lockout.threshold" ≡ ok threshold
unfolding definition first_where
declares = refl

set_value-resolve_example :
    (cache : Cache Bool) × (resolve_fresh two_numbers all_well 100 written.rows threshold []
        written.cache
      ≡ ok (resolved_at threshold twenty "platform" false, cache))
unfolding django_base_x.Settings.Definition.read django_base_x.Settings.Definition.parse_required
    django_base_x.Settings.Definition.is_null def_to_json django_base_x.Settings.Types.to_json
    django_base_x.Settings.Definition.naming_key django_base_x.Settings.Types.parse
    django_base_x.Settings.Types.parse_int django_base_x.Settings.Types.clamp
    django_base_x.Settings.Bounds.clamp_bounds django_base_x.Settings.Bounds.is_below
    django_base_x.Settings.Bounds.less django_base_x.Settings.Bounds.is_above coerce checked check
    check_bounds saved
set_value-resolve_example =
    set_value-resolve two_numbers same_integer registry all_well 100 (λ scope. refl) threshold
      (integer (pos 10)) to_threshold twenty none none begun written
      (resolved_at threshold twenty "platform" false) declares refl refl (begun-IsWrapped, tt) tt
      (λ new accepted.
        subst
          (λ w. saved (def_to_json two_numbers threshold w) ≡ def_to_json two_numbers threshold w)
          (ok-injective accepted) refl)
      (λ new x accepted equal. same_integer-exact x new equal) warm-IsBehind begun-IsCoherent sets

-- After the write another process caches the old row, still uncommitted for it, and time passes.
commit-IsCoherent_example :
    IsCoherent 200 written.rows
      (commit true 200 (
        with_cache
          (lookup
            (all_well "platform")
            100
            begun.rows
            (place_of "security.lockout.threshold" "platform" none)
            (changed true 100 the_change written.rows quiet).cache).1
          (changed true 100 the_change written.rows quiet))).cache
commit-IsCoherent_example =
    commit-IsCoherent true 100 200 the_change written.rows quiet _ warm-IsBehind refl (
      Follows.ticks (omega arith) (
        Follows.looks (all_well "platform") begun.rows
          (place_of "security.lockout.threshold" "platform" none) Follows.still))

resolve_setting-again_example :
    resolve_setting two_numbers same_integer registry no_database 900 "security.lockout.threshold"
      none
      (with_store [] warm remembered)
    ≡ ok (resolved_at threshold (integer (pos 3)) "platform" false, with_store [] warm remembered)
resolve_setting-again_example =
    resolve_setting-again two_numbers same_integer registry "security.lockout.threshold" none
      all_well no_database 100 900 threshold [] begun remembered
      (resolved_at threshold (integer (pos 3)) "platform" false) declares refl reads [] warm
