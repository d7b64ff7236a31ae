-- ===== src/Auth/Payloads.antt =====
-- secure_app/routers/auth.py, secure_app/schemas.py and secure_app/dependencies.py: the state of the
-- application, what a handler is, and the payloads of the authentication routes.
use honeypot_m1spro.Base.{ℕ, String, Bool, Option, List, [], ◌∷◌}
use honeypot_m1spro.Http.{www_authenticate, Response, http_error}
use honeypot_m1spro.Database.{Database}
use honeypot_m1spro.RateLimit.{Limiter}

-- One line of the audit log.
pub record Audit : Type 0 where
  pub event : String
  pub ip : String
  pub username : String
  pub success : Bool

-- The state of the application.
pub record App : Type 0 where
  pub db : Database
  pub revoked : List String
  pub login_limiter : Limiter
  pub audits : List Audit

abbrev pub Handler : Type 0 → Type 0
Handler A = App → Response A × App

abbrev pub audit : String → String → String → Bool → App → App
audit event ip username success app = record app {
  audits = record { event = event; ip = ip; username = username; success = success } ∷ app.audits;
}

abbrev pub unauthorized {ℓ} : {A : Type ℓ} → Response A
unauthorized =
    http_error 401 "Authentification requise ou invalide." (www_authenticate "Bearer" ∷ [])

-- The scheme and the credentials of an `Authorization` header.
pub record Credentials : Type 0 where
  pub scheme : String
  pub token : String

-- The payloads, after the validation of the schemas.
pub record RegisterIn : Type 0 where
  pub username : String
  pub email : String
  pub password : String

pub record LoginIn : Type 0 where
  pub username : String
  pub password : String
  pub otp : Option String

pub record TokenOut : Type 0 where
  pub access_token : String
  pub refresh_token : String
  pub token_type : String
  pub expires_in : ℕ

pub record MfaSetupOut : Type 0 where
  pub secret : String
  pub otpauth_uri : String

-- What a login draws: the identifiers of the two tokens and the salt of a new hash.
pub record Draws : Type 0 where
  pub access_jti : String
  pub refresh_jti : String
  pub salt : String
