-- ===== src/Config/Tests.antt =====
-- Environments.
use honeypot_m1spro.Base.{
  split_on, lookup, ◌≤◌, String, ◌≡◌, refl, ◌⊎◌, false, none, some, [], ◌∷◌, arith, ◌==◌,
  if◌then◌else◌, ◌<>◌, size,
}
use honeypot_m1spro.Shell.Paths.{is_space, lstrip, rstrip, strip}
use honeypot_m1spro.Validators.Chars.{lower_char, lower}
use honeypot_m1spro.Config.{
  Environ, env_int, stripped_items, env_list, env_text, settings_of, is_prod, get_settings, pos,
  Host, refused,
}
use honeypot_m1spro.Config.Secret.{get_settings-secret}

abbrev host : Host
host = record {
  parse_int = λ s. if s == "600" then some (pos 600) else none;
  wide = λ c. "";
  token_urlsafe = "0123456789abcdef0123456789abcdef0123456789abcdef0123456789abcdef";
}

abbrev key : String
key = "0123456789abcdef0123456789abcdef"

abbrev production : Environ
production =
    ("SECURE_APP_ENV", "Prod")
    ∷ ("SECURE_APP_SECRET_KEY", " " <> key)
    ∷ ("SECURE_APP_ACCESS_TTL", "600")
    ∷ ("SECURE_APP_LOGIN_WINDOW", "soon")
    ∷ []

get_settings-secret_example :
    (32 ≤ size key)
    × ((is_prod host (settings_of host production key) ≡ false)
        ⊎ (key ≡ strip (env_text production "SECURE_APP_SECRET_KEY" "")))
unfolding get_settings settings_of strip lstrip rstrip is_space lookup lower lower_char env_int
    env_list
get_settings-secret_example =
    get_settings-secret host production (settings_of host production key) (omega arith) refl

values_run :
    ((settings_of host production key).access_ttl_seconds ≡ pos 600)
    × ((settings_of host production key).login_window_seconds ≡ pos 60)
    × (env_list (("O", "a, ,b") ∷ []) "O" [] ≡ "a" ∷ "b" ∷ [])
unfolding settings_of env_int env_list stripped_items split_on strip lstrip rstrip is_space lookup
values_run = (refl, refl, refl)

refused_run :
    get_settings host (("SECURE_APP_ENV", "production") ∷ [])
    ≡ refused
        "SECURE_APP_SECRET_KEY est obligatoire en production (min. 32 octets aléatoires). Refus de démarrer sans secret."
unfolding get_settings strip lstrip rstrip is_space lookup lower lower_char
refused_run = refl
