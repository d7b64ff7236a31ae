-- ===== src/Config.antt =====
-- secure_app/config.py: the settings, from the environment. `int` and the lower case beyond ASCII are
-- parameters, and so is the secret that is drawn where none is set.
pub mod Secret
pub mod Tests
use honeypot_m1spro.Base.{
  split_on, Dict, lookup, ℕ, ◌*◌, Char, String, Bool, not, Option, none, some, List, [], ◌∷◌, ◌==◌,
  ltb, if◌then◌else◌, any, size,
}
use honeypot_m1spro.Shell.Paths.{strip}
use honeypot_m1spro.Validators.Chars.{lower}

-- Python's integers.
pub data ℤ : Type 0 where
  pos negsuc : ℕ → ℤ

abbrev pub Environ : Type 0
Environ = Dict String

-- What the module calls: `int`, where `none` is the `ValueError`; the lower case of a character that is not
-- ASCII; `secrets.token_urlsafe(48)`.
pub record Host : Type 0 where
  pub parse_int : String → Option ℤ
  pub wide : Char → String
  pub token_urlsafe : String

abbrev number_or : ℤ → Option ℤ → ℤ
number_or default none = default
number_or default (some n) = n

abbrev int_or : Host → ℤ → Option String → ℤ
int_or h default none = default
int_or h default (some raw) =
    if strip raw == "" then default else number_or default (h.parse_int raw)

-- `_env_int`.
unfoldable pub env_int : Host → Environ → String → ℤ → ℤ
env_int h env name default = int_or h default (lookup name env)

-- `[item.strip() for item in items if item.strip()]`.
unfoldable pub stripped_items : List String → List String
stripped_items [] = []
stripped_items (item ∷ items) =
    let rest = stripped_items items in if strip item == "" then rest else strip item ∷ rest

abbrev list_or : List String → Option String → List String
list_or default none = default
list_or default (some raw) = if raw == "" then default else stripped_items (split_on b',' raw)

-- `_env_list`.
unfoldable pub env_list : Environ → String → List String → List String
env_list env name default = list_or default (lookup name env)

-- `os.environ.get(name, default)`.
abbrev text_or : String → Option String → String
text_or default none = default
text_or default (some s) = s

abbrev pub env_text : Environ → String → String → String
env_text env name default = text_or default (lookup name env)

-- `Settings`.
pub record AppSettings : Type 0 where
  pub env : String
  pub secret_key : String
  pub access_ttl_seconds : ℤ
  pub refresh_ttl_seconds : ℤ
  pub jwt_algorithm : String
  pub db_path : String
  pub allowed_origins : List String
  pub login_max_attempts : ℤ
  pub login_window_seconds : ℤ
  pub argon2_time_cost : ℤ
  pub argon2_memory_cost : ℤ
  pub argon2_parallelism : ℤ
  pub seed_demo : Bool

-- `x in {…}`.
abbrev pub is_one_of : String → List String → Bool
is_one_of s names = any (λ n. n == s) names

-- `Settings(secret_key=secret)`.
unfoldable pub settings_of : Host → Environ → String → AppSettings
settings_of h env secret = record {
  env = env_text env "SECURE_APP_ENV" "dev";
  secret_key = secret;
  access_ttl_seconds = env_int h env "SECURE_APP_ACCESS_TTL" (pos 900);
  refresh_ttl_seconds = env_int h env "SECURE_APP_REFRESH_TTL" (pos (7 * 24 * 3600));
  jwt_algorithm = "HS256";
  db_path = env_text env "SECURE_APP_DB_PATH" "secure_app.db";
  allowed_origins =
      env_list env "SECURE_APP_ALLOWED_ORIGINS"
        ("http://localhost:3000" ∷ "http://127.0.0.1:3000" ∷ []);
  login_max_attempts = env_int h env "SECURE_APP_LOGIN_MAX_ATTEMPTS" (pos 5);
  login_window_seconds = env_int h env "SECURE_APP_LOGIN_WINDOW" (pos 60);
  argon2_time_cost = env_int h env "SECURE_APP_ARGON2_TIME" (pos 3);
  argon2_memory_cost = env_int h env "SECURE_APP_ARGON2_MEMORY" (pos 65536);
  argon2_parallelism = env_int h env "SECURE_APP_ARGON2_PAR" (pos 4);
  seed_demo = not (
      is_one_of (lower h.wide (env_text env "SECURE_APP_SEED_DEMO" "1"))
        ("0" ∷ "false" ∷ "no" ∷ []));
}

abbrev pub names_prod : Host → String → Bool
names_prod h env = is_one_of (lower h.wide env) ("prod" ∷ "production" ∷ [])

-- `is_prod`.
abbrev pub is_prod : Host → AppSettings → Bool
is_prod h s = names_prod h s.env

-- `get_settings`; `refused` is the `RuntimeError`.
pub data Started : Type 0 where
  started : AppSettings → Started
  refused : String → Started

unfoldable pub get_settings : Host → Environ → Started
get_settings h env =
    let secret = strip (env_text env "SECURE_APP_SECRET_KEY" "") in
    if secret == ""
    then (if names_prod h (env_text env "SECURE_APP_ENV" "dev")
        then refused
            "SECURE_APP_SECRET_KEY est obligatoire en production (min. 32 octets aléatoires). Refus de démarrer sans secret."
        else started (settings_of h env h.token_urlsafe))
    else if ltb (size secret) 32
    then refused "SECURE_APP_SECRET_KEY trop court (min. 32 caractères)."
    else started (settings_of h env secret)
