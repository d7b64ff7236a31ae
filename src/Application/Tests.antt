-- ===== src/Application/Tests.antt =====
-- A run of the application.
use honeypot_m1spro.Base.{String, ◌≡◌, refl, true, none, some, List, [], ◌∷◌, ◌<>◌}
use honeypot_m1spro.Database.Constraints.{IsConsistent}
use honeypot_m1spro.Security.Model.{model}
use honeypot_m1spro.Auth.{RegisterIn}
use honeypot_m1spro.Auth.Tests.{settings, bob, bearer, auth}
use honeypot_m1spro.Application.{
  start_database, new_app, serve, serve_all, Request, post_register, post_logout, post_mfa_setup,
  post_mfa_enable,
}
use honeypot_m1spro.Application.Requests.{serve_all-IsConsistent}

abbrev bob_in : RegisterIn
bob_in = record { username = "bob_1"; email = "bob@esgi.fr"; password = "Battery-Staple-7" }

abbrev run_of_bob : List Request
run_of_bob =
    post_register bob_in "u-2" "salt"
    ∷ post_register bob_in "u-9" "salt"
    ∷ post_mfa_setup (bearer bob 100) 110 "KEY"
    ∷ post_mfa_enable (bearer bob 100) 110 "000000"
    ∷ post_mfa_enable (bearer bob 100) 111 "123456"
    ∷ post_logout (bearer bob 100) 112
    ∷ post_mfa_setup (bearer bob 100) 113 "OTHER"
    ∷ []

abbrev uri : String → String → String
uri secret username = "otpauth://totp/secure_app:" <> username <> "?secret=" <> secret

-- The second registration, the wrong code and the revoked token change nothing.
users_after :
    (serve_all model settings uri run_of_bob (new_app model none 5 300)).db.users
    ≡ record bob { mfa_secret = some "KEY"; mfa_enabled = true } ∷ []
unfolding auth serve_all serve new_app start_database
users_after = refl

serve_all-IsConsistent_example :
    IsConsistent (serve_all model settings uri run_of_bob (new_app model none 5 300)).db
serve_all-IsConsistent_example = serve_all-IsConsistent model settings uri none 5 300 run_of_bob
