-- ===== src/Auth/Login.antt =====
-- What a login requires, what its refusals tell, and what its rate limit shields.
use honeypot_m1spro.Base.{
  ℕ, String, ◌≡◌, refl, ◌⊎◌, inl, inr, true, false, Option, none, some, [], ◌∷◌, arith, Bool-cases,
  Option-cases,
}
use honeypot_m1spro.Http.{retry_after_seconds, ok, http_error}
use honeypot_m1spro.Database.{get_user_by_username, User}
use honeypot_m1spro.Security.{verify_password, verify_totp, Services, Settings}
use honeypot_m1spro.RateLimit.{client_ip, rate_limit_dependency, too_many}
use honeypot_m1spro.Auth.{
  audit, issue_tokens, second_factor, grant_login, login_checked, login, App, LoginIn, TokenOut,
  Draws,
}

-- The second factor of an account is met: it has none, or the code fits its secret.
abbrev pub MeetsSecondFactor : Services → User → Option String → ℕ → Type 0
MeetsSecondFactor s u otp now =
    (u.mfa_enabled ≡ false)
    ⊎ ((code_text : String) × (otp ≡ some code_text)
        × (verify_totp s now u.mfa_secret code_text ≡ some true))

second_factor_sound :
    (s : Services) (settings : Settings) (u : User) (otp : Option String) (now : ℕ)
    → second_factor s settings u otp now ≡ some true
    → MeetsSecondFactor s u otp now
unfolding second_factor
second_factor_sound s settings u none now e = inl (ground arith)
second_factor_sound s settings u (some c) now e = elim (Bool-cases u.mfa_enabled) [
  | inl on ↦ inr (c, refl, ground arith)
  | inr off ↦ inl off
]

module _ (s : Services) (settings : Settings) (payload : LoginIn) (client : Option String)
    (draws : Draws) (now : ℕ) (app : App) where
  -- Tokens are handed out only to the holder of an account whose password was verified against the
  -- stored hash and whose second factor, if it has one, was met; they name that account.
  pub login_checked_sound :
      {t : TokenOut}
      → (login_checked s settings payload client draws now app).0 ≡ ok t
      → (u : User) × (get_user_by_username app.db payload.username ≡ some u)
        × (verify_password s u.password_hash payload.password ≡ true)
        × MeetsSecondFactor s u payload.otp now
        × (t ≡ issue_tokens s settings u.id draws now)
  unfolding login_checked grant_login
  login_checked_sound {t} e = elim (Option-cases (get_user_by_username app.db payload.username)) [
    | inl missing ↦ absurd (ground arith)
    | inr (u, found) ↦ (
      u,
      found,
      ground arith,
      second_factor_sound s settings u payload.otp now (ground arith),
      ground arith,
    )
  ]

  -- An unknown user name and a wrong password are told apart neither by the answer nor by what is
  -- left in the state.
  pub login_no_oracle :
      (get_user_by_username app.db payload.username ≡ none)
        ⊎ ((u : User) × (get_user_by_username app.db payload.username ≡ some u)
            × (verify_password s u.password_hash payload.password ≡ false))
      → login_checked s settings payload client draws now app ≡ (
        http_error 401 "Identifiants invalides." [],
        audit "login" (client_ip client) payload.username false app,
      )
  unfolding login_checked
  login_no_oracle (inl missing) = rw (missing, login_checked) refl
  login_no_oracle (inr (u, found, wrong)) = rw (found, login_checked) (rw wrong refl)

-- A login that the limiter refuses reaches neither the database nor the audit log, whatever the
-- credentials, and tells the caller how long to wait.
pub login-limited :
    (s : Services) (settings : Settings) (payload : LoginIn) (client : Option String) (clock : ℕ)
    (draws : Draws) (now : ℕ) (app : App) (n : ℕ)
    → (rate_limit_dependency "login" app.login_limiter client clock).0 ≡ too_many n
    → ((login s settings payload client clock draws now app).0
        ≡ http_error 429 "Trop de requêtes, réessayez plus tard." (retry_after_seconds n ∷ []))
      × ((login s settings payload client clock draws now app).1.db ≡ app.db)
      × ((login s settings payload client clock draws now app).1.audits ≡ app.audits)
      × ((login s settings payload client clock draws now app).1.revoked ≡ app.revoked)
unfolding login
login-limited s settings payload client clock draws now app n e = ground arith
