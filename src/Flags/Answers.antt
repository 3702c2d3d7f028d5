-- ===== src/Flags/Answers.antt =====
-- flag_enabled, flags_for and the gate of requires_flag in backend/core/flags.py, over the rows and
-- the cache; each answers with the cache that it leaves.
use django_base_x.Prelude.{ℕ, String, Bool, false, not, Option, none, List, [], ◌∷◌, if◌then◌else◌}
use django_base_x.Flags.Resolution.{Flag, Caller, is_among, is_on}
use django_base_x.Flags.Cache.{Cache, Faults, row_of}

-- flag_enabled, for a registered key
unfoldable pub answer_of : Option Flag × Cache → Option Caller → Option String → Bool × Cache
answer_of seen user tenant = (is_on seen.0 user tenant, seen.1)

pub data Answer : Type 0 where
  passes not_found : Answer

module _ (registered : List String) (faults : Faults) (now : ℕ) (rows : List Flag) where
  unfoldable pub flag_enabled : String → Option Caller → Option String → Cache → Bool × Cache
  flag_enabled key user tenant cache =
      if not (is_among key registered)
      then (false, cache)
      else answer_of (row_of faults now rows key cache) user tenant

  unfoldable pub on_among : Option Caller → List String → Cache → List String × Cache
  on_among user [] cache = ([], cache)
  on_among user (key ∷ keys) cache =
      let seen = flag_enabled key user none cache in
      let rest = on_among user keys seen.1 in if seen.0 then (key ∷ rest.0, rest.1) else rest

  unfoldable pub flags_for : Option Caller → Cache → List String × Cache
  flags_for user cache = on_among user registered cache

  -- The answer of a route gated by requires_flag.
  unfoldable pub has_permission : String → Option Caller → Cache → Answer × Cache
  has_permission key user cache =
      let seen = flag_enabled key user none cache in (if seen.0 then passes else not_found, seen.1)
