-- ===== src/Schemas/Tests.antt =====
-- Bodies of concrete requests.
use honeypot_m1spro.Base.{
  split_on, lookup, ◌≤◌, Char, String, ◌≡◌, refl, true, false, none, some, [], ◌∷◌, arith, size,
}
use honeypot_m1spro.Shell.Paths.{strip, lstrip, rstrip, is_space}
use honeypot_m1spro.Validators.Chars.{chomp, lower, lower_char, is_local_char}
use honeypot_m1spro.Validators.{
  one_of, forbidden_usernames, username_body, username_re, validate_username, error_if,
  validate_password, email_domain, email_re, last_of, validate_email,
}
use honeypot_m1spro.Validators.Usernames.{IsUsername}
use honeypot_m1spro.Validators.Passwords.{IsStrong}
use honeypot_m1spro.Auth.{RegisterIn}
use honeypot_m1spro.Schemas.{
  Body, only_keys, check_text, field, check_otp, is_valid_register, register_in, login_in,
  mfa_verify_in, secret_in, text, null, other,
}
use honeypot_m1spro.Schemas.Accepted.{register_in-valid}

schemas : Unit {0}
unfolding register_in login_in secret_in mfa_verify_in field check_text check_otp only_keys
    is_valid_register lookup validate_username username_re username_body one_of validate_password
    error_if validate_email email_re email_domain last_of chomp lower lower_char split_on strip
    lstrip rstrip is_space is_local_char
schemas = tt

abbrev wide : Char → String
wide c = String.◌∷◌ c ""

abbrev carol : Body
carol =
    ("username", text "carol")
    ∷ ("email", text " Carol@Esgi.fr ")
    ∷ ("password", text "Trombone-Sky-9")
    ∷ []

abbrev carol_in : RegisterIn
carol_in = record { username = "carol"; email = "carol@esgi.fr"; password = "Trombone-Sky-9" }

bodies :
    (register_in wide (λ s. s) carol ≡ some carol_in)
    × (register_in wide (λ s. s) (("is_admin", other) ∷ carol) ≡ none)
    × (login_in (("username", text "carol") ∷ ("password", text "x") ∷ ("otp", null) ∷ [])
        ≡ some (record { username = "carol"; password = "x"; otp = none }))
    × (mfa_verify_in (("otp", text "12345") ∷ []) ≡ none)
    × (secret_in (("label", text "") ∷ ("value", text "v") ∷ []) ≡ none)
unfolding schemas
bodies = (refl, refl, refl, refl, refl)

register_in-valid_example :
    (only_keys ("username" ∷ "email" ∷ "password" ∷ []) carol ≡ true)
    × IsUsername (chomp "carol")
    × (one_of (lower wide "carol") forbidden_usernames ≡ false)
    × (size "carol" ≤ 30)
    × IsStrong "Trombone-Sky-9"
    × (size "Trombone-Sky-9" ≤ 256)
unfolding schemas
register_in-valid_example =
    register_in-valid wide (λ s. s) carol {p = carol_in} (λ c. omega arith) refl
