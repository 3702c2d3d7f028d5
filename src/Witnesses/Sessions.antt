-- ===== src/Witnesses/Sessions.antt =====
-- One account that signs in, refreshes, and has its old token presented again.
use django_base_x.Prelude.{
  arith, ℕ, ◌+◌, ◌≤◌, ◌<◌, ◌≡◌, refl, String, Bool, true, false, Option, none, some, List, [], ◌∷◌,
  arith, str_eq, if◌then◌else◌,
}
use mathlib.Core.List.{Memᴰ}
use django_base_x.Prelude.Result.{ok, err}
use django_base_x.Users.Session.{
  Live, Reason, Session, User, Db, Config, Client, verifying_keys, session_with_user,
}
use django_base_x.Users.Keys.{Jwt, Claims, claims, TokenError, decode}
use django_base_x.Users.Revoke.{revoke_rows, session_is_live}
use django_base_x.Users.Rotate.{exchange, rotate, grace_reissue}
use django_base_x.Users.Issue.{issue_pair}
use django_base_x.Users.Families.{OneOpen, open_in}
use django_base_x.Users.Chains.{Step, Reach, Reach-OneOpen}
use django_base_x.Users.Grace.{exchange_twice}
use django_base_x.Users.Reuse.{rotate_reuse}
use django_base_x.Users.Staleness.{reads, put_back, revoke_rows-not_live}
use django_base_x.Users.Signatures.{Named, decode-verified}

abbrev config : Config
config = record {
  hash = λ s. s;
  successor = λ key jti. if str_eq jti "a" then "b" else "c";
  key_id = λ key. key;
  signing_key = "k1";
  fallbacks = "k0" ∷ [];
  refresh_lifetime = 1000;
  idle_lifetime = 500;
  rotation_grace = 10;
  liveness_cache_ttl = 5;
  max_sessions = 3;
}

abbrev library : Jwt
library = record {
  kid = λ token. ok (some "k0");
  verify = λ token key. claims (record { typ = "refresh"; sub = "u"; sid = "s"; jti = some "a" });
}

abbrev browser : Client
browser = record { ip = some "10.0.0.1"; user_agent = "browser" }

abbrev account : User
account = record { id = 1; is_active = true; password_changed_at = none }

abbrev nobody_in : Db
nobody_in = record { sessions = []; next_id = 1; users = account ∷ []; cache = [] }

abbrev first_session : Session
first_session = record {
  id = 1;
  public_id = "s1";
  user = 1;
  jti = "a";
  family_id = "f";
  parent_jti = "";
  replaced_by_jti = "";
  issued_at = 100;
  expires_at = 1100;
  last_seen_at = 100;
  password_confirmed_at = none;
  revoked_at = none;
  revoked_reason = Reason.unset;
  ip = some "10.0.0.1";
  user_agent = "browser";
  device_label = "";
}

abbrev signed_in : Db
signed_in = record { sessions = first_session ∷ []; next_id = 2; users = account ∷ []; cache = [] }

signs_in :
    issue_pair config "s1" "f" "a" 1 browser 100 nobody_in
    ≡ ok (record { session = first_session; jti = "a"; at = 100 }, signed_in)
unfolding issue_pair django_base_x.Users.Rotate.create django_base_x.Prelude.any_where
    django_base_x.Prelude.slice_to django_base_x.Users.Issue.newest_first
    django_base_x.Prelude.filter_by
signs_in = refl

Reach-OneOpen_example : OneOpen (rotate library config "t" "s2" browser 200 signed_in).1
unfolding django_base_x.Prelude.any_where
Reach-OneOpen_example =
    Reach-OneOpen config library (rotate library config "t" "s2" browser 200 signed_in).1 (
      Reach.next
        (Reach.next (Reach.start (account ∷ [])) (
          Step.logged_in "s1" "f" "a" 1 browser 100
            (record { session = first_session; jti = "a"; at = 100 }) refl signs_in))
        (Step.refreshed "t" "s2" browser 200 refl))

abbrev second_session : Session
second_session = record first_session {
  id = 2;
  public_id = "s2";
  jti = "b";
  parent_jti = "a";
  issued_at = 200;
  last_seen_at = 200;
}

abbrev refreshed : Db
refreshed = record signed_in {
  sessions =
      record first_session {
        revoked_at = some 200;
        revoked_reason = Reason.rotated;
        replaced_by_jti = "b";
      }
      ∷ second_session
      ∷ [];
  next_id = 3;
}

refreshes :
    exchange config "s2" "a" browser 200 signed_in
    ≡ (ok (record { session = second_session; jti = "b"; at = 200 }), refreshed)
unfolding exchange django_base_x.Prelude.first_where django_base_x.Prelude.any_where
    django_base_x.Users.Rotate.successor_of django_base_x.Prelude.slice_to
    django_base_x.Prelude.update_where django_base_x.Prelude.filter_by
refreshes = refl

exchange_twice_example :
    exchange config "s3" "a" browser 205 refreshed
    ≡ (ok (record { session = second_session; jti = "b"; at = 205 }), refreshed)
unfolding session_with_user django_base_x.Prelude.first_where
exchange_twice_example =
    exchange_twice config "s2" "a" browser 200 signed_in first_session account
      (record { session = second_session; jti = "b"; at = 200 }) refreshed "s3" browser 205 refl
      refl (omega arith) refreshes (omega arith) (omega arith)

rotate_reuse_example :
    ((rotate library config "t" "s3" browser 300 refreshed).0 ≡ err TokenError.reuse_detected)
    × (open_in "f" (rotate library config "t" "s3" browser 300 refreshed).1 ≡ 0)
unfolding grace_reissue decode django_base_x.Users.Keys.candidate_keys
    django_base_x.Prelude.filter_by verifying_keys django_base_x.Users.Keys.try_keys
    django_base_x.Prelude.first_where
rotate_reuse_example =
    rotate_reuse library config "t" "s3" browser 300 refreshed
      (record { typ = "refresh"; sub = "u"; sid = "s"; jti = some "a" }) "a"
      (record first_session {
        revoked_at = some 200;
        revoked_reason = Reason.rotated;
        replaced_by_jti = "b";
      })
      account 200 refl refl refl refl refl refl

-- A reader that had seen the session open puts its answer back after the revocation.
abbrev late_answer : Live
late_answer = record { sid = "s1"; until = 170; expires_at = 900; issued_at = 100 }

revoke_rows-not_live_example :
    (session_is_live config "s1" account 180 (
      reads config (("s1", account, 130) ∷ []) (
        put_back
          (late_answer ∷ [])
          (revoke_rows (first_session ∷ []) Reason.logout 120 signed_in).1))).0
    ≡ false
unfolding django_base_x.Prelude.any_where
revoke_rows-not_live_example =
    revoke_rows-not_live config (first_session ∷ []) Reason.logout 120 170 180 signed_in "s1"
      account (late_answer ∷ []) (("s1", account, 130) ∷ []) refl ((λ _. refl), tt)
      ((λ _. omega arith), tt) (omega arith)

decode-verified_example :
    (kid : Option String) × (library.kid "t" ≡ ok kid)
    × ((key : String) × Memᴰ key (verifying_keys config)
        × Named config kid key
        × (library.verify "t" key
            ≡ claims (record { typ = "refresh"; sub = "u"; sid = "s"; jti = some "a" }))
        × (◌≡◌ {A = String} "refresh" "refresh"))
unfolding decode django_base_x.Users.Keys.candidate_keys django_base_x.Prelude.filter_by
    verifying_keys django_base_x.Users.Keys.try_keys
decode-verified_example =
    decode-verified library config "t" "refresh"
      (record { typ = "refresh"; sub = "u"; sid = "s"; jti = some "a" }) refl
