-- ===== src/Auth/Accounts.antt =====
-- From the registration of an account to an authenticated request.
use honeypot_m1spro.Base.{
  fetch_one, ℕ, ◌+◌, ◌≤◌, ◌<◌, String, ◌≡◌, refl, inl, inr, Bool, true, false, ◌||◌, Option, none,
  some, List, [], ◌∷◌, arith, ◌==◌, eq_refl, Bool-cases, Option-cases, any, fetch_one-append_none,
}
use honeypot_m1spro.Http.{ok}
use honeypot_m1spro.Validators.Chars.{lower}
use honeypot_m1spro.Database.{
  create_user, get_user_by_username, get_user_by_id, username_or_email_exists, User, Database,
  Profile,
}
use honeypot_m1spro.Security.{
  verify_password, create_access_token, is_revoked, Services, IsLawful, Settings,
}
use honeypot_m1spro.Security.Tokens.{decode_token-create_token}
use honeypot_m1spro.Auth.{
  get_current_user, register, issue_tokens, second_factor, grant_login, login_checked, App,
  RegisterIn, LoginIn, Draws,
}

any-or_false :
    (p q : User → Bool) (us : List User) → any (λ u. p u || q u) us ≡ false → fetch_one p us ≡ none
unfolding fetch_one
any-or_false p q [] h = refl
any-or_false p q (u ∷ us) h = ground (arith, any-or_false p q us)

-- A new account is found under its name, with the hash of its password and no second factor.
get_user_by_username-create_user :
    (db : Database) (id username email password_hash : String) {db' : Database}
    → username_or_email_exists db username email ≡ false
    → create_user db id username email password_hash ≡ some db'
    → get_user_by_username db' username
      ≡ some (record {
        id = id;
        username = username;
        email = email;
        password_hash = password_hash;
        mfa_secret = none;
        mfa_enabled = false;
      })
unfolding create_user get_user_by_username username_or_email_exists
get_user_by_username-create_user db id username email password_hash {db'} new e =
    let missing = any-or_false (λ u. u.username == username) (λ u. u.email == email) db.users new in
    ground (
      arith,
      eq_refl username,
      fetch_one-append_none (λ u. u.username == username) db.users
          (record {
            id = id;
            username = username;
            email = email;
            password_hash = password_hash;
            mfa_secret = none;
            mfa_enabled = false;
          })
          missing,
    )

module _ (s : Services) (settings : Settings) (law : IsLawful s) where
  verify_password-hash :
      (salt password : String) → verify_password s (s.hash salt password) password ≡ true
  unfolding verify_password
  verify_password-hash salt password = rw (law.verify-hash salt password, verify_password) refl

  login_checked-created :
      (payload : LoginIn) (client : Option String) (draws : Draws) (now : ℕ) (app : App) (u : User)
      → get_user_by_username app.db payload.username ≡ some u
      → verify_password s u.password_hash payload.password ≡ true
      → u.mfa_enabled ≡ false
      → payload.otp ≡ none
      → (login_checked s settings payload client draws now app).0
        ≡ ok (issue_tokens s settings u.id draws now)
  unfolding login_checked second_factor grant_login
  login_checked-created payload client draws now app u found right off no_code = ground arith

  -- Whoever registered an account can log in to it with the registered name and password, and
  -- without a code.
  pub register_then_login :
      (payload : RegisterIn) (user_id salt : String) (client : Option String) (draws : Draws)
      (now : ℕ) (app : App)
      → (register s settings payload user_id salt app).0 ≡ ok "Compte créé."
      → (login_checked s settings
          (record { username = payload.username; password = payload.password; otp = none })
          client
          draws
          now
          (register s settings payload user_id salt app).1).0
        ≡ ok (issue_tokens s settings user_id draws now)
  unfolding register
  register_then_login payload user_id salt client draws now app e =
      elim (Bool-cases (username_or_email_exists app.db payload.username payload.email)) [
        | inl taken ↦ absurd (ground arith)
        | inr new ↦
            elim (Option-cases (
              create_user app.db user_id payload.username payload.email
                (s.hash salt payload.password))) [
                  | inl clash ↦ absurd (ground arith)
                  | inr (db, made) ↦
                      let found =
                        get_user_by_username-create_user app.db user_id payload.username
                          payload.email (s.hash salt payload.password) new made in
                      rw (new, register)
                        (rw (made, register)
                          (login_checked-created _ client draws now (record app { db = db }) _ found
                            (verify_password-hash salt payload.password) refl refl))
                ]
      ]

  -- The access token of a login authenticates the requests of its account until it expires, unless
  -- it is revoked.
  pub issued_token-authenticates :
      (user_id scheme : String) (draws : Draws) (issued now : ℕ) (app : App) {p : Profile}
      → get_user_by_id app.db user_id ≡ some p
      → lower s.wide_lower scheme ≡ "bearer"
      → issued ≤ now
      → now < issued + settings.access_ttl_seconds
      → is_revoked app.revoked draws.access_jti ≡ false
      → get_current_user s settings app now (
          some (record {
            scheme = scheme;
            token = (issue_tokens s settings user_id draws issued).access_token;
          }))
        ≡ ok p
  unfolding get_current_user issue_tokens create_access_token
  issued_token-authenticates user_id scheme draws issued now app account bearer begun alive live =
      rw
        (
          bearer,
          decode_token-create_token s law app.revoked user_id "access" draws.access_jti
              settings.access_ttl_seconds issued now begun alive live,
          get_current_user,
        )
        (rw (account) refl)
