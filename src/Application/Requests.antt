-- ===== src/Application/Requests.antt =====
-- Every request keeps the constraints of the schema, so every state of the application has them.
use honeypot_m1spro.Database.{empty_database, Database}
use honeypot_m1spro.Seed.{SeedDraws}
use honeypot_m1spro.Seed.Once.{seed_if_empty-once}
use honeypot_m1spro.Base.{ℕ, String, ◌≡◌, sym, subst, Option, none, some, List, [], ◌∷◌}
use honeypot_m1spro.Database.Constraints.{IsConsistent-empty, IsConsistent}
use honeypot_m1spro.Database.Constraints.Resources.{
  delete_note-IsConsistent, delete_secret-IsConsistent,
}
use honeypot_m1spro.Security.{Services, Settings}
use honeypot_m1spro.Auth.{logout, mfa_setup, App}
use honeypot_m1spro.Application.{
  start_database, new_app, serve, serve_all, Request, post_register, post_login, post_refresh,
  post_logout, post_mfa_setup, post_mfa_enable, get_me, post_note, get_notes, get_one_note,
  delete_one_note, post_secret, get_secrets, get_one_secret, delete_one_secret,
}
use honeypot_m1spro.Application.Invariant.{
  register-IsConsistent, set_mfa_secret-IsConsistent, login-IsConsistent, refresh-db,
  with_user-IsConsistent, revoke_credentials-db, mfa_enable-IsConsistent,
}
use honeypot_m1spro.Application.Resources.{
  create_note_route-IsConsistent, create_secret_route-IsConsistent, reads-db, deletes-db,
}

module _ (s : Services) (settings : Settings) (uri : String → String → String) where
  -- A handler that leaves the database alone keeps its constraints.
  same_db : {db db' : Database} → db' ≡ db → IsConsistent db → IsConsistent db'
  same_db e k = subst IsConsistent (sym e) k

  serve-IsConsistent :
      (request : Request) (app : App)
      → IsConsistent app.db
      → IsConsistent (serve s settings uri request app).db
  unfolding serve logout mfa_setup
  serve-IsConsistent (post_register payload user_id salt) app k =
      register-IsConsistent s settings payload user_id salt app k
  serve-IsConsistent (post_login payload client clock draws now) app k =
      login-IsConsistent s settings payload client clock draws now app k
  serve-IsConsistent (post_refresh token draws now) app k =
      same_db (refresh-db s settings token draws now app) k
  serve-IsConsistent (post_logout credentials now) app k =
      with_user-IsConsistent s settings credentials now _ app
        (λ user row. same_db (revoke_credentials-db s settings credentials now app) k) k
  serve-IsConsistent (post_mfa_setup credentials now secret) app k =
      with_user-IsConsistent s settings credentials now _ app
        (λ user row. set_mfa_secret-IsConsistent s settings app.db user.id secret k) k
  serve-IsConsistent (post_mfa_enable credentials now otp) app k =
      with_user-IsConsistent s settings credentials now _ app
        (λ user row. mfa_enable-IsConsistent s settings otp now user app row k) k
  serve-IsConsistent (get_me credentials now) app k =
      with_user-IsConsistent s settings credentials now _ app
        (λ user row. same_db ((reads-db s "" user app).0) k) k
  serve-IsConsistent (post_note credentials now title body note_id) app k =
      with_user-IsConsistent s settings credentials now _ app
        (λ user row. create_note_route-IsConsistent s title body note_id now user app k) k
  serve-IsConsistent (get_notes credentials now) app k =
      with_user-IsConsistent s settings credentials now _ app
        (λ user row. same_db ((reads-db s "" user app).1) k) k
  serve-IsConsistent (get_one_note credentials now note_id) app k =
      with_user-IsConsistent s settings credentials now _ app
        (λ user row. same_db ((reads-db s note_id user app).2) k) k
  serve-IsConsistent (delete_one_note credentials now note_id) app k =
      with_user-IsConsistent s settings credentials now _ app
        (λ user row.
          same_db ((deletes-db s note_id user app).0)
            (delete_note-IsConsistent app.db note_id user.id k))
        k
  serve-IsConsistent (post_secret credentials now label value secret_id nonce) app k =
      with_user-IsConsistent s settings credentials now _ app
        (λ user row. create_secret_route-IsConsistent s label value secret_id nonce now user app k)
        k
  serve-IsConsistent (get_secrets credentials now) app k =
      with_user-IsConsistent s settings credentials now _ app
        (λ user row. same_db ((reads-db s "" user app).3) k) k
  serve-IsConsistent (get_one_secret credentials now secret_id) app k =
      with_user-IsConsistent s settings credentials now _ app
        (λ user row. same_db ((reads-db s secret_id user app).4) k) k
  serve-IsConsistent (delete_one_secret credentials now secret_id) app k =
      with_user-IsConsistent s settings credentials now _ app
        (λ user row.
          same_db ((deletes-db s secret_id user app).1)
            (delete_secret-IsConsistent app.db secret_id user.id k))
        k

  serve_all-step :
      (requests : List Request) (app : App)
      → IsConsistent app.db
      → IsConsistent (serve_all s settings uri requests app).db
  unfolding serve_all
  serve_all-step [] app k = k
  serve_all-step (r ∷ requests) app k =
      serve_all-step requests (serve s settings uri r app) (serve-IsConsistent r app k)

  start_database-IsConsistent : (seed : Option SeedDraws) → IsConsistent (start_database s seed)
  unfolding start_database
  start_database-IsConsistent none = IsConsistent-empty
  start_database-IsConsistent (some draws) =
      (seed_if_empty-once s draws draws empty_database IsConsistent-empty).1

  -- From the start, seeded or not, after any sequence of requests: the identifiers, user names and
  -- addresses are unique, each note and secret has an existing owner, and an account with MFA has a
  -- secret.
  pub serve_all-IsConsistent :
      (seed : Option SeedDraws) (max_attempts window_seconds : ℕ) (requests : List Request)
      → IsConsistent
          (serve_all s settings uri requests (new_app s seed max_attempts window_seconds)).db
  unfolding new_app
  serve_all-IsConsistent seed max_attempts window_seconds requests =
      serve_all-step requests (new_app s seed max_attempts window_seconds)
        (start_database-IsConsistent seed)
