-- ===== src/Users/Keys.antt =====
-- decode() of backend/users/tokens.py. The JWT library is a parameter: `kid` reads the unverified
-- header, `verify` checks a token under one key.
use django_base_x.Prelude.{
  String, Option, none, some, List, [], ◌∷◌, str_eq, filter_by, if◌then◌else◌,
}
use django_base_x.Prelude.Result.{Result, ok, err, ◌>>=◌}
use django_base_x.Users.Session.{Config, verifying_keys}

pub record Claims : Type 0 where
  pub typ : String
  pub sub : String
  pub sid : String
  pub jti : Option String

-- What jwt.decode comes to under one key: the claims, InvalidSignatureError, or another PyJWTError.
pub data Verified : Type 0 where
  claims : Claims → Verified
  bad_signature invalid : Verified

pub record Jwt : Type 0 where
  -- `err` when the header cannot be read, `ok none` when it names no key
  pub kid : String → Result Unit (Option String)
  pub verify : String → String → Verified

-- The exceptions of the token functions.
pub data TokenError : Type 0 where
  invalid_token unknown_key wrong_type no_jti unknown_token session_expired inactive
        predates_password :
      TokenError
  reuse_detected integrity_error : TokenError

unfoldable pub candidate_keys : Config → Option String → List String
candidate_keys cfg none = verifying_keys cfg
candidate_keys cfg (some kid) = filter_by (λ k. str_eq (cfg.key_id k) kid) (verifying_keys cfg)

unfoldable pub try_keys : Jwt → String → List String → Result TokenError Claims
try_keys lib token [] = err invalid_token
try_keys lib token (key ∷ keys) =
    let rest = try_keys lib token keys in
    elim (lib.verify token key) [
      | claims c ↦ ok c
      | bad_signature ↦ rest
      | invalid ↦ err invalid_token
    ]

unfoldable pub decode : Jwt → Config → String → String → Result TokenError Claims
decode lib cfg token expected = elim (lib.kid token) [
  | err unreadable ↦ err invalid_token
  | ok kid ↦ elim (candidate_keys cfg kid) [
    | [] ↦ err unknown_key
    | key ∷ keys ↦ (do
      c ← try_keys lib token (key ∷ keys)
      if str_eq c.typ expected then ok c else err wrong_type)
  ]
]
