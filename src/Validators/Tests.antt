-- ===== src/Validators/Tests.antt =====
-- The validators on concrete texts.
use mathlib.Core.Logic.{◌↔◌}
use honeypot_m1spro.Base.{
  split_on, ◌≤◌, Char, String, ◌≡◌, refl, ◌↔◌, true, false, none, some, List, [], ◌∷◌, arith, ◌==◌,
  if◌then◌else◌, ◌<>◌, size, all_chars,
}
use honeypot_m1spro.Validators.Urls.{
  validate_url, validate_url_sound, ParsedUrl, UrlTools, IsPublicTarget,
}
use honeypot_m1spro.Validators.{
  one_of, forbidden_usernames, username_body, username_re, validate_username, error_if,
  validate_password, email_domain, email_re, last_of, validate_email, label_re, is_safe_hostname,
}
use honeypot_m1spro.Shell.Paths.{is_space, lstrip, rstrip, strip}
use honeypot_m1spro.Validators.Chars.{is_local_char, chomp, lower_char, lower}
use honeypot_m1spro.Validators.Usernames.{
  IsUsername, validate_username-IsUsername, validate_username-line_feed,
}
use honeypot_m1spro.Validators.Passwords.{IsStrong, validate_password_iff}
use honeypot_m1spro.Validators.Hosts.{is_host_char, is_safe_hostname-chars}

-- No test has a letter beyond ASCII.
abbrev wide : Char → String
wide c = String.◌∷◌ c ""

validators : Unit {0}
unfolding validate_username username_re username_body one_of validate_password error_if
    validate_email email_re email_domain last_of is_safe_hostname label_re chomp lower lower_char
    split_on strip lstrip rstrip is_space is_local_char
validators = tt

usernames :
    (validate_username wide "alice_42" ≡ true)
    × (validate_username wide "42alice" ≡ false)
    × (validate_username wide "al" ≡ false)
    × (validate_username wide "Admin" ≡ false)
    × (validate_username wide "admin\n" ≡ true)
unfolding validators
usernames = (refl, refl, refl, refl, refl)

hosts :
    (is_safe_hostname "srv-1.esgi.fr" ≡ true)
    × (is_safe_hostname "a;b" ≡ false)
    × (is_safe_hostname "-f" ≡ true)
    × (is_safe_hostname "a..b" ≡ false)
unfolding validators
hosts = (refl, refl, refl, refl)

emails :
    (validate_email wide (λ s. s) "alice@esgi.fr" ≡ true)
    × (validate_email wide (λ s. s) "alice@YopMail.com" ≡ false)
    × (validate_email wide (λ s. s) "alice@esgi" ≡ false)
unfolding validators
emails = (refl, refl, refl)

accepted_name : IsUsername "alice_42" × (one_of (lower wide "alice_42") forbidden_usernames ≡ false)
unfolding validators
accepted_name = validate_username-IsUsername wide "alice_42" refl

validate_username-line_feed_run : validate_username wide ("admin" <> "\n") ≡ true
validate_username-line_feed_run =
    validate_username-line_feed wide "admin" (refl, omega arith, omega arith, refl)

validate_password_iff_run :
    ((validate_password wide "Trombone-Sky-9").0 ≡ true) ↔ IsStrong "Trombone-Sky-9"
validate_password_iff_run = validate_password_iff wide (λ c. omega arith) "Trombone-Sky-9"

is_safe_hostname-chars_run :
    (size "srv-1.esgi.fr" ≤ 253) × (all_chars is_host_char "srv-1.esgi.fr" ≡ true)
unfolding validators
is_safe_hostname-chars_run = is_safe_hostname-chars "srv-1.esgi.fr" refl

-- A parser that knows one URL, and the address of the cloud's metadata.
abbrev url_tools : UrlTools
url_tools = record {
  urlparse = λ s.
      if s == "https://esgi.fr/"
      then some (record { scheme = "https"; hostname = some "esgi.fr" })
      else some (record { scheme = "http"; hostname = some "169.254.169.254" });
  ip_address = λ host.
      if host == "169.254.169.254"
      then some (record {
        is_private = true;
        is_loopback = false;
        is_link_local = true;
        is_reserved = false;
        is_multicast = false;
      })
      else none;
}

abbrev web : List String
web = "http" ∷ "https" ∷ []

metadata_refused : validate_url url_tools web "http://169.254.169.254/" ≡ false
unfolding validate_url
metadata_refused = refl

validate_url_sound_example :
    (url : ParsedUrl) × (url_tools.urlparse "https://esgi.fr/" ≡ some url)
    × IsPublicTarget url_tools web url
unfolding validate_url is_safe_hostname split_on label_re chomp
validate_url_sound_example = validate_url_sound url_tools web "https://esgi.fr/" refl
