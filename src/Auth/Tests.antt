-- ===== src/Auth/Tests.antt =====
-- Accounts and tokens on concrete requests.
use honeypot_m1spro.Base.{
  fetch_one, update_where, lookup, insert, ℕ, ◌+◌, String, ◌≡◌, refl, inr, true, false, Option,
  none, some, [], ◌∷◌, arith,
}
use honeypot_m1spro.Http.{retry_after_seconds, ok, http_error}
use honeypot_m1spro.Validators.Chars.{lower_char, lower}
use honeypot_m1spro.RateLimit.Bucket.{purge, wait, refuse, decide_hit, admit}
use honeypot_m1spro.RateLimit.{bucket_of, check, client_ip, gate_of, rate_limit_dependency}
use honeypot_m1spro.Database.{
  create_user, get_user_by_username, profile_of, get_user_by_id, username_or_email_exists,
  update_user, set_mfa_secret, enable_mfa, update_password_hash, User,
}
use honeypot_m1spro.Security.{
  verify_password, needs_rehash, create_token, create_access_token, create_refresh_token,
  all_digits, verify_totp, is_revoked, revoke_token, decode_token, Claims, Settings,
}
use honeypot_m1spro.Security.Model.{model, model-IsLawful}
use honeypot_m1spro.Auth.{
  audit, unauthorized, get_current_user, register, issue_tokens, second_factor, grant_login,
  login_checked, login, refresh, revoke_credentials, with_user, logout, mfa_setup, mfa_enable, App,
  Credentials, LoginIn, Draws,
}
use honeypot_m1spro.Auth.Login.{
  MeetsSecondFactor, login_checked_sound, login_no_oracle, login-limited,
}
use honeypot_m1spro.Auth.Accounts.{register_then_login, issued_token-authenticates}
use honeypot_m1spro.Auth.Sessions.{
  get_current_user_sound, refresh_once, logout_revokes, tokens_not_interchangeable,
}

abbrev pub settings : Settings
settings = record { access_ttl_seconds = 30; refresh_ttl_seconds = 90 }

abbrev pub alice : User
alice = record {
  id = "u-1";
  username = "alice";
  email = "alice@esgi.fr";
  password_hash = "Correct-Horse-42";
  mfa_secret = some "JBSWY3DP";
  mfa_enabled = true;
}

abbrev pub bob : User
bob = record {
  id = "u-2";
  username = "bob_1";
  email = "bob@esgi.fr";
  password_hash = "Battery-Staple-7";
  mfa_secret = none;
  mfa_enabled = false;
}

abbrev pub app : App
app = record {
  db = record { users = alice ∷ bob ∷ []; notes = []; secrets = [] };
  revoked = [];
  login_limiter = record { max_requests = 1; window = 300; hits = [] };
  audits = [];
}

abbrev draws : Draws
draws = record { access_jti = "a-1"; refresh_jti = "r-1"; salt = "s" }

abbrev draws_again : Draws
draws_again = record { access_jti = "a-2"; refresh_jti = "r-2"; salt = "s" }

abbrev alice_in : LoginIn
alice_in = record { username = "alice"; password = "Correct-Horse-42"; otp = some "123456" }

abbrev pub bearer : User → ℕ → Option Credentials
bearer u now = some (record {
  scheme = "Bearer";
  token =
      model.jwt_encode
        (record { sub = u.id; type_claim = "access"; jti = "a-1"; iat = now; exp = now + 30 });
})

abbrev refresh_token_of : User → ℕ → String
refresh_token_of u now =
    model.jwt_encode
      (record { sub = u.id; type_claim = "refresh"; jti = "r-1"; iat = now; exp = now + 90 })

-- What the tests compute with.
unfoldable pub auth : Unit {0}
unfolding lower lower_char get_current_user register issue_tokens second_factor grant_login
    login_checked login refresh revoke_credentials with_user logout mfa_setup mfa_enable
    verify_password needs_rehash create_token create_access_token create_refresh_token all_digits
    verify_totp is_revoked revoke_token decode_token create_user get_user_by_username get_user_by_id
    username_or_email_exists update_user set_mfa_secret enable_mfa update_password_hash fetch_one
    update_where
auth = tt

-- The second factor is asked for, checked, and its lack is no password error.
logins :
    ((login_checked model settings alice_in (some "10.0.0.5") draws 100 app).0
      ≡ ok (issue_tokens model settings "u-1" draws 100))
    × ((login_checked model settings (record alice_in { otp = some "12345x" }) none draws 100 app).0
        ≡ http_error 401 "Code MFA requis ou invalide." [])
    × ((login_checked model settings (record alice_in { otp = none }) none draws 100 app).0
        ≡ http_error 401 "Code MFA requis ou invalide." [])
    × ((login_checked model settings (record alice_in { password = "x" }) none draws 100 app).0
        ≡ http_error 401 "Identifiants invalides." [])
unfolding auth
logins = (refl, refl, refl, refl)

-- Setting MFA up again replaces the secret of an account that has it enabled already.
second_setup :
    (get_user_by_username
      (mfa_setup model settings (λ k n. k) "NEWKEY" (profile_of alice) app).1.db
      "alice")
    ≡ some (record alice { mfa_secret = some "NEWKEY" })
unfolding auth
second_setup = refl

login_checked_sound_example :
    (u : User) × (get_user_by_username app.db "alice" ≡ some u)
    × (verify_password model u.password_hash "Correct-Horse-42" ≡ true)
    × MeetsSecondFactor model u (some "123456") 100
    × (issue_tokens model settings "u-1" draws 100 ≡ issue_tokens model settings u.id draws 100)
unfolding auth
login_checked_sound_example =
    login_checked_sound model settings alice_in (some "10.0.0.5") draws 100 app refl

login_no_oracle_example :
    login_checked model settings (record alice_in { password = "x" }) none draws 100 app
    ≡ (http_error 401 "Identifiants invalides." [], audit "login" "unknown" "alice" false app)
unfolding auth client_ip
login_no_oracle_example =
    login_no_oracle model settings (record alice_in { password = "x" }) none draws 100 app
      (inr (alice, refl, refl))

get_current_user_sound_example :
    (c : Credentials) × (payload : Claims) × (bearer alice 100 ≡ some c)
    × (model.jwt_decode 110 c.token ≡ some payload)
    × (payload.type_claim ≡ "access")
    × (is_revoked app.revoked payload.jti ≡ false)
    × (get_user_by_id app.db payload.sub ≡ some (profile_of alice))
    × ("u-1" ≡ payload.sub)
unfolding auth
get_current_user_sound_example =
    get_current_user_sound model settings app 110 (bearer alice 100) {p = profile_of alice} refl

refresh_once_example :
    (refresh model settings
      (refresh_token_of alice 100)
      draws_again
      120
      (refresh model settings (refresh_token_of alice 100) draws 110 app).1).0
    ≡ http_error 401 "Refresh token invalide." []
unfolding auth
refresh_once_example =
    refresh_once model settings model-IsLawful (refresh_token_of alice 100) draws draws_again 110
      120 app {t = issue_tokens model settings "u-1" draws 110} refl

logout_revokes_example :
    get_current_user model settings
      (logout model settings (bearer alice 100) 110 app).1
      120
      (bearer alice 100)
    ≡ unauthorized
unfolding auth
logout_revokes_example =
    logout_revokes model settings model-IsLawful (bearer alice 100) 110 120 app refl

tokens_not_interchangeable_example :
    (get_current_user model settings app 110 (
        some (record {
          scheme = "Bearer";
          token = (issue_tokens model settings "u-1" draws 100).refresh_token;
        }))
      ≡ unauthorized)
    × (refresh model settings
          (issue_tokens model settings "u-1" draws 100).access_token
          draws_again
          110
          app
        ≡ (http_error 401 "Refresh token invalide." [], app))
tokens_not_interchangeable_example =
    tokens_not_interchangeable model settings model-IsLawful "u-1" "Bearer" draws draws_again 100
      110 app

register_then_login_example :
    (login_checked model settings
      (record { username = "carol"; password = "Trombone-Sky-9"; otp = none })
      (some "10.0.0.6")
      draws
      100
      (register model settings
        (record { username = "carol"; email = "carol@esgi.fr"; password = "Trombone-Sky-9" })
        "u-3"
        "salt"
        app).1).0
    ≡ ok (issue_tokens model settings "u-3" draws 100)
unfolding auth
register_then_login_example =
    register_then_login model settings model-IsLawful
      (record { username = "carol"; email = "carol@esgi.fr"; password = "Trombone-Sky-9" }) "u-3"
      "salt" (some "10.0.0.6") draws 100 app refl

issued_token-authenticates_example :
    get_current_user model settings app 125 (
      some (record {
        scheme = "BEARER";
        token = (issue_tokens model settings "u-2" draws 100).access_token;
      }))
    ≡ ok (profile_of bob)
unfolding auth
issued_token-authenticates_example =
    issued_token-authenticates model settings model-IsLawful "u-2" "BEARER" draws 100 125 app
      {p = profile_of bob} refl refl (omega arith) (omega arith) refl

-- The limiter of `app` lets one login through.
abbrev limited : App
limited = record app {
  login_limiter = (rate_limit_dependency "login" app.login_limiter (some "10.0.0.5") 1000000).1;
}

login-limited_run :
    ((login model settings alice_in (some "10.0.0.5") 2000000 draws 100 limited).0
      ≡ http_error 429 "Trop de requêtes, réessayez plus tard." (retry_after_seconds 300 ∷ []))
    × ((login model settings alice_in (some "10.0.0.5") 2000000 draws 100 limited).1.db ≡ app.db)
    × ((login model settings alice_in (some "10.0.0.5") 2000000 draws 100 limited).1.audits ≡ [])
    × ((login model settings alice_in (some "10.0.0.5") 2000000 draws 100 limited).1.revoked ≡ [])
unfolding rate_limit_dependency check admit purge decide_hit refuse wait gate_of bucket_of lookup
    insert client_ip
login-limited_run =
    login-limited model settings alice_in (some "10.0.0.5") 2000000 draws 100 limited 300 refl
