-- ===== src/Witnesses/Switches.antt =====
-- A flag that is live for one role, and its kill switch.
use django_base_x.Prelude.{
  ◌⊎◌, arith, true, false, none, some, [], ◌∷◌, ◌≡◌, refl, first_where, update_where, any_where,
}
use django_base_x.Prelude.Result.{ok}
use django_base_x.Flags.Resolution.{Flag, Caller, find}
use django_base_x.Flags.Cache.{Cache, Faults, cached, entry_in, is_slot}
use django_base_x.Flags.Answers.{flag_enabled}
use django_base_x.Flags.Coherence.{IsCoherent, IsBehind}
use django_base_x.Flags.Setting.{Changes, Store, set_flag}
use django_base_x.Flags.Laws.{IsLive, flag_enabled_iff}
use django_base_x.Flags.KillSwitch.{set_flag-off}

abbrev beta : Flag
beta = record {
  key = "billing.beta";
  enabled = true;
  user_ids = none;
  role_slugs = some ("tester" ∷ []);
  tenant_ids = some [];
  updated_by = none;
}

abbrev dark : Flag
dark = record beta { enabled = false; updated_by = some "admin" }

abbrev tester : Caller
tester = record {
  public_id = "u1";
  is_authenticated = true;
  roles = some ("staff" ∷ "tester" ∷ []);
}

-- The cache holds the row, and every call of the cache and of the database succeeds.
abbrev warm : Cache
warm = record {
  generation = some 5;
  slots = record { generation = 5; key = "billing.beta"; entry = some beta } ∷ [];
}

abbrev well : Faults
well = record {
  reads_generation = true;
  adds_generation = true;
  rereads_generation = true;
  gets_entry = true;
  queries = true;
  sets_entry = true;
}

warm-IsCoherent : IsCoherent 9 (beta ∷ []) warm
unfolding IsCoherent cached entry_in first_where is_slot find
warm-IsCoherent later le key entry e = ground (arith, e)

warm-IsBehind : IsBehind 9 warm
unfolding IsBehind
warm-IsBehind = (omega arith, tt)

flag_enabled_iff_example :
    ((flag_enabled
          ("billing.beta" ∷ [])
          well
          9
          (beta ∷ [])
          "billing.beta"
          (some tester)
          none
          warm).0
        ≡ true
      → IsLive ("billing.beta" ∷ []) (beta ∷ []) "billing.beta" (some tester) none)
    × (IsLive ("billing.beta" ∷ []) (beta ∷ []) "billing.beta" (some tester) none
        → ((flag_enabled
              ("billing.beta" ∷ [])
              well
              9
              (beta ∷ [])
              "billing.beta"
              (some tester)
              none
              warm).0
            ≡ true)
          ⊎ (true ≡ false))
flag_enabled_iff_example =
    flag_enabled_iff ("billing.beta" ∷ []) well 9 9 (beta ∷ []) warm (omega arith) warm-IsCoherent
      "billing.beta" (some tester) none

abbrev off : Changes
off = record { enabled = some false; user_ids = none; role_slugs = none; tenant_ids = none }

abbrev start : Store
start = (beta ∷ [], [], warm)

abbrev after : Store
after = (
  dark ∷ [],
  record {
    key = "billing.beta";
    actor = some "admin";
    old =
        some
          (record { enabled = true; user_ids = []; role_slugs = "tester" ∷ []; tenant_ids = [] });
    new = record { enabled = false; user_ids = []; role_slugs = "tester" ∷ []; tenant_ids = [] };
    reason = "incident";
  }
      ∷ [],
  record { generation = some 6; slots = warm.slots },
)

switches :
    set_flag true 9 ("billing.beta" ∷ []) "billing.beta" (some "admin") "incident" off none start
    ≡ ok after
unfolding set_flag django_base_x.Flags.Resolution.is_among any_where
    django_base_x.Flags.Setting.store_flag find first_where django_base_x.Flags.Setting.update_flag
    django_base_x.Flags.Setting.same_shown django_base_x.Flags.Setting.shown
    django_base_x.Flags.Setting.applied django_base_x.Flags.Setting.written update_where
    django_base_x.Flags.Resolution.targets django_base_x.Flags.Cache.bump_generation
    django_base_x.Flags.Setting.given
switches = refl

set_flag-off_example :
    (flag_enabled
      ("billing.beta" ∷ [])
      well
      11
      after.0
      "billing.beta"
      (some tester)
      (some "t1")
      after.2).0
    ≡ false
set_flag-off_example =
    set_flag-off ("billing.beta" ∷ []) 9 "billing.beta" (some "admin") "incident" off none start
      after (λ flag none_. absurd (cc)) warm-IsBehind warm-IsCoherent refl switches well 11
      (some tester) (some "t1") (omega arith)
