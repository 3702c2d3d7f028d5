-- ===== src/Users/Signatures.antt =====
-- Which tokens decode of backend/users/tokens.py accepts.
use django_base_x.Prelude.{
  ◌≡◌, refl, ap, ◌∙◌, subst, ◌⊎◌, String, Bool, true, Option, none, some, List, [], ◌∷◌, arith, inl,
  inr, str_eq, eq_iff, Bool-cases, filter_by,
}
use mathlib.Core.List.{Memᴰ}
use django_base_x.Prelude.Result.{ok, Result-cases}
use django_base_x.Users.Session.{Config, verifying_keys}
use django_base_x.Users.Keys.{
  Claims, Verified, claims, bad_signature, invalid, Jwt, candidate_keys, try_keys, decode,
}

Verified-cases :
    (v : Verified) → ((c : Claims) × (v ≡ claims c)) ⊎ ((v ≡ bad_signature) ⊎ (v ≡ invalid))
Verified-cases (claims c) = inl (c, refl)
Verified-cases bad_signature = inr (inl refl)
Verified-cases invalid = inr (inr refl)

try_keys-ok :
    (lib : Jwt) (token : String) (keys : List String) (c : Claims)
    → try_keys lib token keys ≡ ok c
    → (key : String) × Memᴰ key keys × (lib.verify token key ≡ claims c)
unfolding try_keys
try_keys-ok lib token [] c e = absurd (cc)
try_keys-ok lib token (key ∷ keys) c e = elim (Verified-cases (lib.verify token key)) [
  | inl (d, seen) ↦
      let same : d ≡ c = ground (arith, e, seen) in
      (key, Memᴰ.head refl, seen ∙ ap (λ x. claims x) same)
  | inr (inl other) ↦
      let (k, m, v) = try_keys-ok lib token keys c (ground (arith, e, other)) in (k, Memᴰ.tail m, v)
  | inr (inr bad) ↦ absurd (ground (arith, e, bad))
]

Memᴰ-cases : (key k : String) (keys : List String) → Memᴰ key (k ∷ keys) → (key ≡ k) ⊎ Memᴰ key keys
Memᴰ-cases key k keys (Memᴰ.head e) = inl e
Memᴰ-cases key k keys (Memᴰ.tail m) = inr m

Memᴰ-filter_by :
    (p : String → Bool) (keys : List String) (key : String)
    → Memᴰ key (filter_by p keys)
    → Memᴰ key keys × (p key ≡ true)
unfolding filter_by
Memᴰ-filter_by p [] key m = elim m [ ]
Memᴰ-filter_by p (k ∷ keys) key m = elim (Bool-cases (p k)) [
  | inl t ↦
      let step : filter_by p (k ∷ keys) ≡ k ∷ filter_by p keys = ground (arith, t) in
      elim (Memᴰ-cases key k (filter_by p keys) (subst (λ l. Memᴰ key l) step m)) [
        | inl same ↦ (Memᴰ.head same, rw same t)
        | inr later ↦
            let (there, passes) = Memᴰ-filter_by p keys key later in (Memᴰ.tail there, passes)
      ]
  | inr f ↦
      let step : filter_by p (k ∷ keys) ≡ filter_by p keys = ground (arith, f) in
      let (there, passes) = Memᴰ-filter_by p keys key (subst (λ l. Memᴰ key l) step m) in
      (Memᴰ.tail there, passes)
]

-- The key that verified a token is the one its header names, if it names one.
abbrev pub Named : Config → Option String → String → Type 0
Named cfg none key = Unit
Named cfg (some kid) key = cfg.key_id key ≡ kid

candidate_keys-Named :
    (cfg : Config) (kid : Option String) (key : String)
    → Memᴰ key (candidate_keys cfg kid)
    → Memᴰ key (verifying_keys cfg) × Named cfg kid key
unfolding candidate_keys
candidate_keys-Named cfg none key m = (m, tt)
candidate_keys-Named cfg (some kid) key m =
    let (there, passes) =
      Memᴰ-filter_by (λ k. str_eq (cfg.key_id k) kid) (verifying_keys cfg) key m in
    (there, (eq_iff (cfg.key_id key) kid).0 passes)

-- When `decode` accepts a token, the JWT library has verified just these claims under one of the
-- signing key and its fallbacks, the one that the header names if it names one, and the claims are
-- of the expected type.
pub decode-verified :
    (lib : Jwt) (cfg : Config) (token expected : String) (c : Claims)
    → decode lib cfg token expected ≡ ok c
    → (kid : Option String) × (lib.kid token ≡ ok kid)
      × ((key : String) × Memᴰ key (verifying_keys cfg)
          × Named cfg kid key
          × (lib.verify token key ≡ claims c)
          × (c.typ ≡ expected))
unfolding decode
decode-verified lib cfg token expected c e = elim (Result-cases (lib.kid token)) [
  | inr (x, bad) ↦ absurd (ground (arith, e, bad))
  | inl (kid, named) ↦ (kid, named, accepted (candidate_keys cfg kid) kid named refl)
]
  where
    accepted :
        (keys : List String) (kid : Option String)
        → lib.kid token ≡ ok kid
        → candidate_keys cfg kid ≡ keys
        → (key : String) × Memᴰ key (verifying_keys cfg)
          × Named cfg kid key
          × (lib.verify token key ≡ claims c)
          × (c.typ ≡ expected)
    accepted [] kid named found = absurd (ground (arith, e, named, found))
    accepted (k ∷ keys) kid named found = elim (Result-cases (try_keys lib token (k ∷ keys))) [
      | inr (x, bad) ↦ absurd (ground (arith, e, named, found, bad))
      | inl (d, tried) ↦ elim (Bool-cases (str_eq d.typ expected)) [
        | inr f ↦ absurd (ground (arith, e, named, found, tried, f))
        | inl t ↦
            let same : d ≡ c = ground (arith, e, named, found, tried, t) in
            let (key, m, v) = try_keys-ok lib token (k ∷ keys) d tried in
            let (there, named_key) = candidate_keys-Named cfg kid key (rw found m) in
            (
              key,
              there,
              named_key,
              v ∙ ap (λ x. claims x) same,
              subst (λ (x : Claims). x.typ ≡ expected) same ((eq_iff d.typ expected).0 t),
            )
      ]
    ]
