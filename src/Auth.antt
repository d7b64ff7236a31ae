-- ===== src/Auth.antt =====
-- secure_app/dependencies.py and secure_app/routers/auth.py: the current user, registration, login,
-- rotation and revocation of tokens, and the enrolment of MFA.
-- A handler takes the random identifiers and salts it draws, and the current second, as arguments.
mod Payloads
pub mod Login
pub mod Accounts
pub mod Sessions
pub mod Tests
pub use Payloads.{
  Audit, App, Handler, audit, unauthorized, Credentials, RegisterIn, LoginIn, TokenOut, MfaSetupOut,
  Draws,
}
use mathlib.Core.Option
use honeypot_m1spro.Base.{
  ℕ, String, Bool, true, false, not, Option, none, some, [], ◌∷◌, ◌==◌, if◌then◌else◌,
}
use honeypot_m1spro.Http.{retry_after_seconds, Response, ok, http_error, uncaught}
use honeypot_m1spro.Database.{
  create_user, get_user_by_username, get_user_by_id, username_or_email_exists, set_mfa_secret,
  enable_mfa, update_password_hash, User, Profile,
}
use honeypot_m1spro.Security.{
  verify_password, needs_rehash, create_access_token, create_refresh_token, verify_totp,
  revoke_token, decode_token, Services, Settings,
}
use honeypot_m1spro.Validators.Chars.{lower}
use honeypot_m1spro.RateLimit.{client_ip, rate_limit_dependency, pass, crash, too_many}

abbrev invalid_login {ℓ} : {A : Type ℓ} → Response A
invalid_login = http_error 401 "Identifiants invalides." []

abbrev invalid_mfa {ℓ} : {A : Type ℓ} → Response A
invalid_mfa = http_error 401 "Code MFA requis ou invalide." []

abbrev pub invalid_refresh {ℓ} : {A : Type ℓ} → Response A
invalid_refresh = http_error 401 "Refresh token invalide." []

module _ (s : Services) (settings : Settings) where
  -- `get_current_user`.
  unfoldable pub get_current_user : App → ℕ → Option Credentials → Response Profile
  get_current_user app now none = unauthorized
  get_current_user app now (some credentials) =
      if not (lower s.wide_lower credentials.scheme == "bearer")
      then unauthorized
      else elim (decode_token s app.revoked now credentials.token "access") [
        | none ↦ unauthorized
        | some payload ↦ elim (get_user_by_id app.db payload.sub) [
          | none ↦ unauthorized
          | some user ↦ ok user
        ]
      ]

  -- `/auth/register`; an `IntegrityError` of the insertion is not caught.
  unfoldable pub register : RegisterIn → String → String → Handler String
  register payload user_id salt app =
      if username_or_email_exists app.db payload.username payload.email
      then (http_error 409 "Impossible de créer ce compte." [], app)
      else (let password_hash = s.hash salt payload.password in
          elim (create_user app.db user_id payload.username payload.email password_hash) [
            | none ↦ (uncaught, app)
            | some db ↦ (ok "Compte créé.", record app { db = db })
          ])

  unfoldable pub issue_tokens : String → Draws → ℕ → TokenOut
  issue_tokens user_id draws now = record {
    access_token = create_access_token s settings user_id draws.access_jti now;
    refresh_token = create_refresh_token s settings user_id draws.refresh_jti now;
    token_type = "bearer";
    expires_in = settings.access_ttl_seconds;
  }

  -- The second factor, `none` where pyotp raises: `not otp or not verify_totp(...)` is its failure.
  unfoldable pub second_factor : User → Option String → ℕ → Option Bool
  second_factor user none now = some (not user.mfa_enabled)
  second_factor user (some otp) now =
      if user.mfa_enabled then verify_totp s now user.mfa_secret otp else some true

  -- The end of `login`: the transparent rehash, the audit line and the tokens.
  unfoldable pub grant_login : User → LoginIn → String → Draws → ℕ → Handler TokenOut
  grant_login user payload ip draws now app =
      let db =
        if needs_rehash s user.password_hash
        then update_password_hash app.db user.id (s.hash draws.salt payload.password)
        else app.db in
      (
        ok (issue_tokens user.id draws now),
        audit "login" ip payload.username true (record app { db = db }),
      )

  -- `login` without its rate limit.
  unfoldable pub login_checked : LoginIn → Option String → Draws → ℕ → Handler TokenOut
  login_checked payload client draws now app =
      let ip = client_ip client in
      elim (get_user_by_username app.db payload.username) [
        | none ↦ (invalid_login, audit "login" ip payload.username false app)
        | some user ↦
            if not (verify_password s user.password_hash payload.password)
            then (invalid_login, audit "login" ip payload.username false app)
            else elim (second_factor user payload.otp now) [
              | none ↦ (uncaught, app)
              | some passed ↦
                  if passed
                  then grant_login user payload ip draws now app
                  else (invalid_mfa, audit "login_mfa" ip payload.username false app)
            ]
      ]

  -- `/auth/login` behind its rate limit; `clock` is the monotonic clock of the limiter.
  unfoldable pub login : LoginIn → Option String → ℕ → Draws → ℕ → Handler TokenOut
  login payload client clock draws now app =
      let (gate, limiter) = rate_limit_dependency "login" app.login_limiter client clock in
      let app' = record app { login_limiter = limiter } in
      elim gate [
        | pass ↦ login_checked payload client draws now app'
        | crash ↦ (uncaught, app')
        | too_many n ↦ (
          http_error 429 "Trop de requêtes, réessayez plus tard." (retry_after_seconds n ∷ []),
          app',
        )
      ]

  -- `/auth/refresh`: the old token is revoked before the new pair is made.
  unfoldable pub refresh : String → Draws → ℕ → Handler TokenOut
  refresh refresh_token draws now app =
      elim (decode_token s app.revoked now refresh_token "refresh") [
        | none ↦ (invalid_refresh, app)
        | some decoded ↦ elim (get_user_by_id app.db decoded.sub) [
          | none ↦ (invalid_refresh, app)
          | some _ ↦ (
            ok (issue_tokens decoded.sub draws now),
            record app { revoked = revoke_token app.revoked decoded.jti },
          )
        ]
      ]

  -- The body of `/auth/logout`, for an authenticated request.
  unfoldable pub revoke_credentials : Option Credentials → ℕ → App → App
  revoke_credentials none now app = app
  revoke_credentials (some credentials) now app =
      elim (decode_token s app.revoked now credentials.token "access") [
        | none ↦ app
        | some decoded ↦ record app { revoked = revoke_token app.revoked decoded.jti }
      ]

  -- Runs the handler of a protected route for the current user.
  unfoldable pub with_user {ℓ} :
      {A : Type ℓ}
      → Option Credentials
      → ℕ
      → (Profile → App → Response A × App)
      → App
      → Response A × App
  with_user credentials now handler app = elim (get_current_user app now credentials) [
    | ok user ↦ handler user app
    | http_error status detail headers ↦ (http_error status detail headers, app)
    | uncaught ↦ (uncaught, app)
  ]

  -- `/auth/logout`.
  unfoldable pub logout : Option Credentials → ℕ → Handler String
  logout credentials now =
      with_user credentials now
        λ user app. (ok "Déconnecté.", revoke_credentials credentials now app)

  -- `/auth/mfa/setup`; `secret` is the drawn base32 secret and `uri` pyotp's link for it.
  unfoldable pub mfa_setup : (String → String → String) → String → Profile → Handler MfaSetupOut
  mfa_setup provisioning_uri secret user app = (
    ok (record { secret = secret; otpauth_uri = provisioning_uri secret user.username }),
    record app { db = set_mfa_secret app.db user.id secret },
  )

  -- `not full["mfa_secret"]`: no secret, or an empty one.
  abbrev pub lacks_secret : Option String → Bool
  lacks_secret none = true
  lacks_secret (some secret) = secret == ""

  -- `/auth/mfa/enable`.
  unfoldable pub mfa_enable : String → ℕ → Profile → Handler String
  mfa_enable otp now user app = elim (get_user_by_username app.db user.username) [
    | none ↦ (http_error 400 "Appelez /mfa/setup d'abord." [], app)
    | some full ↦
        if lacks_secret full.mfa_secret
        then (http_error 400 "Appelez /mfa/setup d'abord." [], app)
        else elim (verify_totp s now full.mfa_secret otp) [
          | none ↦ (uncaught, app)
          | some valid ↦
              if valid
              then (ok "MFA activé.", record app { db = enable_mfa app.db user.id })
              else (http_error 400 "Code MFA invalide." [], app)
        ]
  ]
