-- ===== src/Settings/Snapshot.antt =====
-- The request's snapshot in resolve_setting of backend/core/settings_service.py.
use django_base_x.Prelude.{
  ℕ, String, Bool, true, Option, none, some, List, ◌∷◌, ◌≡◌, refl, sym, ◌∙◌, subst, Option-cases,
  inl, inr, arith, eq_refl, first_where, str_eq, ◌&&◌,
}
use django_base_x.Prelude.Result.{ok, >>=-eq-ok, ok-injective}
use django_base_x.Settings.Objects.{Object}
use django_base_x.Settings.Types.{Library}
use django_base_x.Settings.Definition.{SettingDef}
use django_base_x.Settings.Service.{Row, Cache, Faults, Resolved}
use django_base_x.Settings.Resolve.{User, resolve_fresh, scope_ids}
use django_base_x.Settings.State.{State, Memo, Registry, definition, recall, remember, same_pk}
use django_base_x.Settings.Write.{resolve_setting, pk_of, settled}

same_pk-itself : (pk : Option ℕ) → same_pk pk pk ≡ true
unfolding same_pk
same_pk-itself none = refl
same_pk-itself (some pk) = ground arith

first_where-head :
    {A : Type 0} (p : A → Bool) (x : A) (xs : List A) → p x ≡ true → first_where p (x ∷ xs) ≡ some x
unfolding first_where
first_where-head p x xs t = rw t refl

module _ {N : Type 0} where
  recall-remember :
      (key : String) (pk : Option ℕ) (r : Resolved N) (memos : List (Memo N))
      → recall key pk (remember key pk r (some memos)) ≡ some r
  unfolding recall remember
  recall-remember key pk r memos =
      let memo : Memo N = record { key = key; pk = pk; resolved = r } in
      rw
        (
          recall,
          first_where-head (λ m. str_eq m.key key && same_pk m.pk pk) memo memos
              (rw (eq_refl key, same_pk-itself pk) refl),
        )
        refl

  -- The state of the same request after other transactions: other rows, another cache.
  abbrev pub with_store : List (Row N) → Cache N → State N → State N
  with_store rows cache state = record {
    rows = rows;
    cache = cache;
    snapshot = state.snapshot;
    waiting = state.waiting;
    audit = state.audit;
  }

module _ {N : Type 0} (library : Library N) (same : Object N → Object N → Bool)
    (registry : Registry N) (key : String) (user : Option User) where
  recalled-again :
      (faults : String → Faults) (now : ℕ) (defn : SettingDef N) (r : Resolved N) (state : State N)
      → definition registry key ≡ ok defn
      → recall key (pk_of user) state.snapshot ≡ some r
      → resolve_setting library same registry faults now key user state ≡ ok (r, state)
  unfolding resolve_setting
  recalled-again faults now defn r state declared known = rw (declared, known) refl

  resolved-recall :
      (faults : String → Faults) (now : ℕ) (defn : SettingDef N) (memos : List (Memo N))
      (state after : State N) (r : Resolved N)
      → definition registry key ≡ ok defn
      → state.snapshot ≡ some memos
      → resolve_setting library same registry faults now key user state ≡ ok (r, after)
      → recall key (pk_of user) after.snapshot ≡ some r
  unfolding resolve_setting
  resolved-recall faults now defn memos state after r declared taken e =
      elim (Option-cases (recall key (pk_of user) state.snapshot)) [
        | inr (known, k) ↦
            let pair : ok (known, state) ≡ ok (r, after) =
              sym (recalled-again faults now defn known state declared k) ∙ e in
            let moved : (known, state) ≡ (r, after) = ok-injective pair in
            subst (λ (q : Resolved N × State N). recall key (pk_of user) q.1.snapshot ≡ some q.0)
              moved k
        | inl k ↦
            let (answer, fresh, then_) =
              >>=-eq-ok
                (resolve_fresh library faults now state.rows defn
                  (scope_ids registry.tenant_resolver defn.scopes user) state.cache)
                (λ answer. ok (answer.0, settled key user answer.0 answer.1 state)) {y = (r, after)}
                (ground (arith, e, declared, k)) in
            subst (λ (q : Resolved N × State N). recall key (pk_of user) q.1.snapshot ≡ some q.0)
              (ok-injective then_)
              (subst
                (λ o.
                  recall key (pk_of user) (remember key (pk_of user) answer.0 o) ≡ some answer.0)
                (sym taken) (recall-remember key (pk_of user) answer.0 memos))
      ]

  -- In a request with a snapshot, once resolve_setting has returned for a key and a user it returns
  -- the same again: whatever rows and cache other transactions have left since, and whatever fails.
  pub resolve_setting-again :
      (faults again : String → Faults) (now later : ℕ) (defn : SettingDef N) (memos : List (Memo N))
      (state after : State N) (r : Resolved N)
      → definition registry key ≡ ok defn
      → state.snapshot ≡ some memos
      → resolve_setting library same registry faults now key user state ≡ ok (r, after)
      → (rows : List (Row N)) (cache : Cache N)
      → resolve_setting library same registry again later key user (with_store rows cache after)
        ≡ ok (r, with_store rows cache after)
  resolve_setting-again faults again now later defn memos state after r declared taken e rows
        cache =
      recalled-again again later defn r (with_store rows cache after) declared
        (resolved-recall faults now defn memos state after r declared taken e)
