-- ===== src/Validators.antt =====
-- secure_app/validators.py: the whitelists for user names, passwords, mail addresses and host names.
-- A text is a sequence of code points. `wide` is the lower case of a character that is not ASCII,
-- `nfkc` the compatibility normal form: both are Unicode tables of Python.
pub mod Chars
pub mod Hosts
pub mod Urls
pub mod Usernames
pub mod Passwords
pub mod Tests
use honeypot_m1spro.Base.{
  split_on, ℕ, Char, code, String, Bool, false, not, ◌&&◌, ◌||◌, List, [], ◌∷◌, ◌++◌, ◌==◌, ltb,
  leb, if◌then◌else◌, length, any, all, size, all_chars, any_char,
}
use honeypot_m1spro.Shell.Paths.{strip, words, is_empty}
use Chars.{
  is_upper, is_lower, is_digit, is_special, is_username_start, is_username_char, is_label_char,
  is_local_char, chomp, lower,
}

-- `x in some_set`.
unfoldable pub one_of : String → List String → Bool
one_of s words = any (λ w. s == w) words

abbrev pub forbidden_usernames : List String
forbidden_usernames =
    "admin" ∷ "administrator" ∷ "root" ∷ "system" ∷ "sysadmin" ∷ "superuser" ∷ "operator"
    ∷ "support" ∷ "security" ∷ "moderator" ∷ "owner" ∷ []

-- `^[a-zA-Z_][a-zA-Z0-9_-]{2,29}$`, without what `$` allows behind.
unfoldable pub username_body : String → Bool
username_body String.[] = false
username_body (String.◌∷◌ c s) =
    is_username_start (code c) && leb 2 (size s) && leb (size s) 29 && all_chars is_username_char s

-- `_USERNAME_RE.match`.
unfoldable pub username_re : String → Bool
username_re s = username_body (chomp s)

unfoldable pub validate_username : (Char → String) → String → Bool
validate_username wide username =
    if not (username_re username)
    then false
    else not (one_of (lower wide username) forbidden_usernames)

abbrev password_min_len : ℕ
password_min_len = 12

abbrev pub common_passwords : List String
common_passwords =
    "password" ∷ "123456" ∷ "123456789" ∷ "qwerty" ∷ "azerty" ∷ "motdepasse" ∷ "password1"
    ∷ "iloveyou" ∷ "admin123" ∷ "welcome" ∷ "changeme" ∷ "letmein" ∷ "p@ssw0rd" ∷ "passw0rd"
    ∷ "12345678" ∷ "qwerty123" ∷ []

-- `errors.append(message)` where the test holds.
unfoldable pub error_if : Bool → String → List String
error_if b message = if b then message ∷ [] else []

unfoldable pub validate_password : (Char → String) → String → Bool × List String
unfolding error_if
validate_password wide password =
    let errors =
      error_if (ltb (size password) password_min_len) "Minimum 12 caractères."
      ++ error_if (not (any_char is_upper password)) "Au moins une majuscule."
      ++ error_if (not (any_char is_lower password)) "Au moins une minuscule."
      ++ error_if (not (any_char is_digit password)) "Au moins un chiffre."
      ++ error_if (not (any_char is_special password)) "Au moins un caractère spécial."
      ++ error_if (one_of (lower wide password) common_passwords) "Mot de passe trop courant." in
    (is_empty errors, errors)

abbrev disposable_domains : List String
disposable_domains =
    "mailinator.com" ∷ "yopmail.com" ∷ "guerrillamail.com" ∷ "10minutemail.com" ∷ "trashmail.com"
    ∷ "tempmail.com" ∷ []

abbrev email_max_len : ℕ
email_max_len = 254

-- `[a-zA-Z0-9-]+(?:\.[a-zA-Z0-9-]+)+`.
unfoldable pub email_domain : String → Bool
email_domain domain =
    let labels = split_on b'.' domain in
    leb 2 (length labels) && all (λ l. leb 1 (size l) && all_chars is_label_char l) labels

-- `_EMAIL_RE.match`: neither part of the pattern accepts an at sign, so the address has just one.
unfoldable pub email_re : String → Bool
unfolding email_domain
email_re s = parts_match (split_on b'@' (chomp s))
  where
    parts_match : List String → Bool
    parts_match (local ∷ domain ∷ []) =
        leb 1 (size local) && all_chars is_local_char local && email_domain domain
    parts_match _ = false

-- `email.rsplit("@", 1)[-1]`.
unfoldable pub last_of : List String → String
last_of [] = ""
last_of (p ∷ []) = p
last_of (p ∷ q ∷ ps) = last_of (q ∷ ps)

unfoldable pub validate_email : (Char → String) → (String → String) → String → Bool
unfolding email_re last_of
validate_email wide nfkc email =
    if ltb email_max_len (size email)
    then false
    else (let normal = strip (nfkc email) in
        if not (email_re normal)
        then false
        else not (one_of (lower wide (last_of (split_on b'@' normal))) disposable_domains))

-- `part and re.match(r"^[a-zA-Z0-9-]{1,63}$", part)`.
unfoldable pub label_re : String → Bool
label_re part =
    let body = chomp part in
    leb 1 (size part) && leb 1 (size body) && leb (size body) 63 && all_chars is_label_char body

unfoldable pub is_safe_hostname : String → Bool
unfolding label_re
is_safe_hostname host =
    if host == "" || ltb 253 (size host) then false else all label_re (split_on b'.' host)
