-- ===== src/Application.antt =====
-- secure_app/main.py: the routes that read or change the state. Each request carries what its
-- handler draws and the clocks that it reads.
pub mod Invariant
pub mod Resources
pub mod Requests
pub mod Tests
use honeypot_m1spro.Base.{ℕ, String, Option, none, some, List, [], ◌∷◌}
use honeypot_m1spro.Database.{empty_database, Database}
use honeypot_m1spro.Security.{Services, Settings}
use honeypot_m1spro.Seed.{seed_if_empty, SeedDraws}
use honeypot_m1spro.RateLimit.{new_limiter}
use honeypot_m1spro.Auth.{
  App, Credentials, RegisterIn, LoginIn, Draws, register, login, refresh, with_user, logout,
  mfa_setup, mfa_enable,
}
use honeypot_m1spro.Vault.{
  me, create_note_route, list_notes, get_note, delete_note, create_secret_route, list_secrets,
  reveal_secret, delete_secret,
}

-- A request that reached a handler, its body validated.
pub data Request : Type 0 where
  post_register : RegisterIn → (user_id salt : String) → Request
  post_login : LoginIn → Option String → (clock : ℕ) → Draws → ℕ → Request
  post_refresh : String → Draws → ℕ → Request
  post_logout : Option Credentials → ℕ → Request
  post_mfa_setup : Option Credentials → ℕ → (secret : String) → Request
  post_mfa_enable : Option Credentials → ℕ → (otp : String) → Request
  get_me : Option Credentials → ℕ → Request
  post_note : Option Credentials → ℕ → (title body note_id : String) → Request
  get_notes : Option Credentials → ℕ → Request
  get_one_note : Option Credentials → ℕ → (note_id : String) → Request
  delete_one_note : Option Credentials → ℕ → (note_id : String) → Request
  post_secret : Option Credentials → ℕ → (label value secret_id nonce : String) → Request
  get_secrets : Option Credentials → ℕ → Request
  get_one_secret : Option Credentials → ℕ → (secret_id : String) → Request
  delete_one_secret : Option Credentials → ℕ → (secret_id : String) → Request

-- `lifespan`, on a new file: the tables are made, and seeded if the settings ask for it.
unfoldable pub start_database : Services → Option SeedDraws → Database
start_database s none = empty_database
start_database s (some draws) = seed_if_empty s draws empty_database

-- The state at the start, with a limiter for the logins.
unfoldable pub new_app : Services → Option SeedDraws → ℕ → ℕ → App
unfolding start_database
new_app s seed max_attempts window_seconds = record {
  db = start_database s seed;
  revoked = [];
  login_limiter = new_limiter max_attempts window_seconds;
  audits = [];
}

module _ (s : Services) (settings : Settings) (provisioning_uri : String → String → String) where
  -- The state that a request leaves.
  unfoldable pub serve : Request → App → App
  serve (post_register payload user_id salt) app = (register s settings payload user_id salt app).1
  serve (post_login payload client clock draws now) app =
      (login s settings payload client clock draws now app).1
  serve (post_refresh token draws now) app = (refresh s settings token draws now app).1
  serve (post_logout credentials now) app = (logout s settings credentials now app).1
  serve (post_mfa_setup credentials now secret) app =
      (with_user s settings credentials now (mfa_setup s settings provisioning_uri secret) app).1
  serve (post_mfa_enable credentials now otp) app =
      (with_user s settings credentials now (mfa_enable s settings otp now) app).1
  serve (get_me credentials now) app = (with_user s settings credentials now me app).1
  serve (post_note credentials now title body note_id) app =
      (with_user s settings credentials now (create_note_route title body note_id now) app).1
  serve (get_notes credentials now) app = (with_user s settings credentials now list_notes app).1
  serve (get_one_note credentials now note_id) app =
      (with_user s settings credentials now (get_note note_id) app).1
  serve (delete_one_note credentials now note_id) app =
      (with_user s settings credentials now (delete_note note_id) app).1
  serve (post_secret credentials now label value secret_id nonce) app =
      (with_user s settings credentials now (create_secret_route s label value secret_id nonce now)
        app).1
  serve (get_secrets credentials now) app =
      (with_user s settings credentials now (list_secrets s) app).1
  serve (get_one_secret credentials now secret_id) app =
      (with_user s settings credentials now (reveal_secret s secret_id) app).1
  serve (delete_one_secret credentials now secret_id) app =
      (with_user s settings credentials now (delete_secret secret_id) app).1

  unfoldable pub serve_all : List Request → App → App
  unfolding serve
  serve_all [] app = app
  serve_all (request ∷ requests) app = serve_all requests (serve request app)
