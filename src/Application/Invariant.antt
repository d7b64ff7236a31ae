-- ===== src/Application/Invariant.antt =====
-- The constraints of the schema hold whatever requests the application serves.
use mathlib.Core.Option
use mathlib.Core.Option.{some-injective}
use honeypot_m1spro.Base.{
  ℕ, String, ◌≡◌, refl, sym, ap, subst, ◌∙◌, ◌⊎◌, inl, inr, true, false, Option, none, some, List,
  arith, ◌==◌, Bool-cases, Option-cases, is_some, Distinct, fetch_one_unique,
}
use honeypot_m1spro.Http.{Header, Response, ok, http_error, uncaught}
use honeypot_m1spro.Database.{
  create_user, get_user_by_username, get_user_by_id, username_or_email_exists, set_mfa_secret,
  update_password_hash, User, Database, Profile,
}
use honeypot_m1spro.Database.Constraints.{
  create_user-IsConsistent, update_user-IsConsistent, enable_mfa-IsConsistent, IsConsistent,
}
use honeypot_m1spro.Security.{verify_password, needs_rehash, verify_totp, Services, Settings}
use honeypot_m1spro.RateLimit.{rate_limit_dependency, Gate, pass, crash, too_many}
use honeypot_m1spro.Auth.Sessions.{get_current_user_sound}
use honeypot_m1spro.Auth.{
  Handler, get_current_user, register, second_factor, grant_login, login_checked, login, refresh,
  revoke_credentials, with_user, lacks_secret, mfa_enable, App, Credentials, RegisterIn, LoginIn,
  Draws,
}

Gate-cases : (g : Gate) → (g ≡ pass) ⊎ ((g ≡ crash) ⊎ ((n : ℕ) × (g ≡ too_many n)))
Gate-cases pass = inl refl
Gate-cases crash = inr (inl refl)
Gate-cases (too_many n) = inr (inr (n, refl))

Response-cases :
    {A : Type 0}
    → (r : Response A)
    → ((a : A) × (r ≡ ok a))
      ⊎ (((n : ℕ) × (d : String) × (hs : List Header) × (r ≡ http_error n d hs)) ⊎ (r ≡ uncaught))
Response-cases (ok a) = inl (a, refl)
Response-cases (http_error n d hs) = inr (inl (n, d, hs, refl))
Response-cases uncaught = inr (inr refl)

-- The row that an authenticated user's name finds is the user's.
user_of_name :
    (db : Database) (user : Profile) {u : User}
    → Distinct (λ v. v.username) db.users
    → get_user_by_id db user.id ≡ some user
    → get_user_by_username db user.username ≡ some u
    → u.id ≡ user.id
unfolding get_user_by_id get_user_by_username
user_of_name db user {u} names current found =
    let (v, row, same) = (Option.map-eq-some_iff _ _).0 current in
    let again = fetch_one_unique (λ w. w.username) (λ w. w.id == user.id) db.users names row in
    let name : v.username ≡ user.username = ap (λ p. p.username) same in
    let both : some v ≡ some u = sym (rw name at again) ∙ found in
    sym (ap (λ w. w.id) (some-injective v u both)) ∙ ap (λ p. p.id) same

module _ (s : Services) (settings : Settings) where
  pub register-IsConsistent :
      (payload : RegisterIn) (user_id salt : String) (app : App)
      → IsConsistent app.db
      → IsConsistent (register s settings payload user_id salt app).1.db
  unfolding register
  register-IsConsistent payload user_id salt app k =
      elim (Option-cases (
        create_user app.db user_id payload.username payload.email (s.hash salt payload.password))) [
          | inl clash ↦
              let r : (register s settings payload user_id salt app).1.db ≡ app.db = ground arith in
              subst IsConsistent (sym r) k
          | inr (db, made) ↦
              elim (Bool-cases (username_or_email_exists app.db payload.username payload.email)) [
                | inl taken ↦
                    let r : (register s settings payload user_id salt app).1.db ≡ app.db =
                      ground arith in
                    subst IsConsistent (sym r) k
                | inr new ↦
                    let r : (register s settings payload user_id salt app).1.db ≡ db =
                      ground arith in
                    subst IsConsistent (sym r) (
                      create_user-IsConsistent app.db user_id payload.username payload.email
                        (s.hash salt payload.password) k made)
              ]
        ]

  update_password_hash-IsConsistent :
      (db : Database) (user_id hash : String)
      → IsConsistent db
      → IsConsistent (update_password_hash db user_id hash)
  unfolding update_password_hash
  update_password_hash-IsConsistent db user_id hash k =
      update_user-IsConsistent db user_id _ (λ u. (refl, refl, refl)) (λ u h. h) k

  pub set_mfa_secret-IsConsistent :
      (db : Database) (user_id secret : String)
      → IsConsistent db
      → IsConsistent (set_mfa_secret db user_id secret)
  unfolding set_mfa_secret
  set_mfa_secret-IsConsistent db user_id secret k =
      update_user-IsConsistent db user_id _ (λ u. (refl, refl, refl)) (λ u h. ground arith) k

  -- A login changes nothing of the database but a hash.
  login_checked-db :
      (payload : LoginIn) (client : Option String) (draws : Draws) (now : ℕ) (app : App)
      → ((login_checked s settings payload client draws now app).1.db ≡ app.db)
        ⊎ ((user_id hash : String) × ((login_checked s settings payload client draws now app).1.db
              ≡ update_password_hash app.db user_id hash))
  unfolding login_checked grant_login
  login_checked-db payload client draws now app =
      elim (Option-cases (get_user_by_username app.db payload.username)) [
        | inl missing ↦ inl (ground arith)
        | inr (u, found) ↦ elim (Bool-cases (verify_password s u.password_hash payload.password)) [
          | inr wrong ↦ inl (ground arith)
          | inl right ↦ elim (Option-cases (second_factor s settings u payload.otp now)) [
            | inl raised ↦ inl (ground arith)
            | inr (b, factor) ↦ elim (Bool-cases b) [
              | inr bad ↦ inl (ground arith)
              | inl good ↦ elim (Bool-cases (needs_rehash s u.password_hash)) [
                | inl old ↦ inr (u.id, s.hash draws.salt payload.password, ground arith)
                | inr fresh ↦ inl (ground arith)
              ]
            ]
          ]
        ]
      ]

  login_checked-IsConsistent :
      (payload : LoginIn) (client : Option String) (draws : Draws) (now : ℕ) (app : App)
      → IsConsistent app.db
      → IsConsistent (login_checked s settings payload client draws now app).1.db
  login_checked-IsConsistent payload client draws now app k =
      elim (login_checked-db payload client draws now app) [
        | inl same ↦ subst IsConsistent (sym same) k
        | inr (user_id, hash, e) ↦
            subst IsConsistent (sym e) (update_password_hash-IsConsistent app.db user_id hash k)
      ]

  pub login-IsConsistent :
      (payload : LoginIn) (client : Option String) (clock : ℕ) (draws : Draws) (now : ℕ) (app : App)
      → IsConsistent app.db
      → IsConsistent (login s settings payload client clock draws now app).1.db
  unfolding login
  login-IsConsistent payload client clock draws now app k =
      elim (Gate-cases (rate_limit_dependency "login" app.login_limiter client clock).0) [
        | inl passed ↦ rw (passed, login) (login_checked-IsConsistent payload client draws now _ k)
        | inr (inl crashed) ↦ rw (crashed, login) k
        | inr (inr (n, refused)) ↦ rw (refused, login) k
      ]

  pub refresh-db :
      (token : String) (draws : Draws) (now : ℕ) (app : App)
      → (refresh s settings token draws now app).1.db ≡ app.db
  unfolding refresh
  refresh-db token draws now app = ground arith

  get_current_user-row :
      (app : App) (now : ℕ) (credentials : Option Credentials) {user : Profile}
      → get_current_user s settings app now credentials ≡ ok user
      → get_user_by_id app.db user.id ≡ some user
  get_current_user-row app now credentials {user} e =
      let (_, _, _, _, _, _, row, same) = get_current_user_sound s settings app now credentials e in
      subst (λ id. get_user_by_id app.db id ≡ some user) (sym same) row

  -- A protected route keeps the constraints if its handler does so for a user of the database.
  pub with_user-IsConsistent :
      {A : Type 0}
      → (credentials : Option Credentials) (now : ℕ) (handler : Profile → Handler A) (app : App)
      → ((user : Profile)
          → get_user_by_id app.db user.id ≡ some user
          → IsConsistent (handler user app).1.db)
      → IsConsistent app.db
      → IsConsistent (with_user s settings credentials now handler app).1.db
  unfolding with_user
  with_user-IsConsistent {A} credentials now handler app step k =
      elim (Response-cases (get_current_user s settings app now credentials)) [
        | inl (user, found) ↦
            rw (found, with_user) (step user (get_current_user-row app now credentials found))
        | inr refused ↦
            let same : (with_user s settings credentials now handler app).1.db ≡ app.db =
              refused_db refused in
            subst IsConsistent (sym same) k
      ]
    where
      refused_db :
          ((n : ℕ) × (d : String) × (hs : List Header) × (get_current_user s settings app now
                  credentials
                ≡ http_error n d hs))
            ⊎ (get_current_user s settings app now credentials ≡ uncaught)
          → (with_user s settings credentials now handler app).1.db ≡ app.db
      refused_db (inl (n, d, hs, e)) = rw (e, with_user) refl
      refused_db (inr e) = rw (e, with_user) refl

  -- A logout revokes, and changes no row.
  pub revoke_credentials-db :
      (credentials : Option Credentials) (now : ℕ) (app : App)
      → (revoke_credentials s settings credentials now app).db ≡ app.db
  unfolding revoke_credentials
  revoke_credentials-db none now app = refl
  revoke_credentials-db (some c) now app = ground arith

  pub mfa_enable-IsConsistent :
      (otp : String) (now : ℕ) (user : Profile) (app : App)
      → get_user_by_id app.db user.id ≡ some user
      → IsConsistent app.db
      → IsConsistent (mfa_enable s settings otp now user app).1.db
  unfolding mfa_enable
  mfa_enable-IsConsistent otp now user app current k =
      elim (Option-cases (get_user_by_username app.db user.username)) [
        | inl missing ↦ rw (missing, mfa_enable) k
        | inr (u, found) ↦ elim (Bool-cases (lacks_secret s settings u.mfa_secret)) [
          | inl no_secret ↦ rw (found, mfa_enable) (rw no_secret k)
          | inr secret ↦ elim (Option-cases (verify_totp s now u.mfa_secret otp)) [
            | inl raised ↦ rw (found, mfa_enable) (rw (secret, raised) k)
            | inr (false, wrong) ↦ rw (found, mfa_enable) (rw (secret, wrong) k)
            | inr (true, right) ↦
                let same : u.id ≡ user.id = user_of_name app.db user k.usernames current found in
                rw (found, mfa_enable)
                  (rw (secret, right, ← same)
                    (enable_mfa-IsConsistent app.db user.username found
                      (has_secret u.mfa_secret secret) k))
          ]
        ]
      ]
    where
      has_secret :
          (secret : Option String) → lacks_secret s settings secret ≡ false → is_some secret ≡ true
      has_secret none e = cc
      has_secret (some secret) e = refl
