-- ===== src/Schemas.antt =====
-- secure_app/schemas.py: what pydantic makes of the JSON object of a request; `none` is the answer 422.
-- The keys of an object are distinct, and a value that is neither a text nor null is `other`.
pub mod Accepted
pub mod Tests
use mathlib.Core.Option
use honeypot_m1spro.Base.{
  Dict, lookup, ℕ, Char, String, Bool, not, ◌&&◌, Option, none, some, List, [], ◌∷◌, leb,
  if◌then◌else◌, all, size,
}
use honeypot_m1spro.Shell.Paths.{strip}
use honeypot_m1spro.Validators.Chars.{lower}
use honeypot_m1spro.Validators.{one_of, validate_username, validate_password, validate_email}
use honeypot_m1spro.Auth.{RegisterIn, LoginIn}

pub data Json : Type 0 where
  text : String → Json
  null other : Json

abbrev pub Body : Type 0
Body = Dict Json

infixl 5 ◌>>=◌
abbrev ◌>>=◌ : {A B : Type 0} → Option A → (A → Option B) → Option B
none >>= f = none
some a >>= f = f a

-- `extra="forbid"`.
unfoldable pub only_keys : List String → Body → Bool
unfolding one_of
only_keys keys body = all (λ (k, _). one_of k keys) body

-- `Field(min_length=..., max_length=...)` of a required text.
unfoldable pub check_text : ℕ → ℕ → Option Json → Option String
check_text min_length max_length none = none
check_text min_length max_length (some null) = none
check_text min_length max_length (some other) = none
check_text min_length max_length (some (text s)) =
    if leb min_length (size s) && leb (size s) max_length then some s else none

unfoldable pub field : String → ℕ → ℕ → Body → Option String
unfolding lookup check_text
field key min_length max_length body = check_text min_length max_length (lookup key body)

-- `otp: str | None = Field(default=None, max_length=8)`.
unfoldable pub check_otp : Option Json → Option (Option String)
check_otp none = some none
check_otp (some null) = some none
check_otp (some other) = none
check_otp (some (text s)) = if leb (size s) 8 then some (some s) else none

-- The three validators of `RegisterIn`.
unfoldable pub is_valid_register :
    (Char → String) → (String → String) → (username email password : String) → Bool
is_valid_register wide nfkc username email password =
    validate_username wide username
    && validate_email wide nfkc email
    && (validate_password wide password).0

unfoldable pub register_in : (Char → String) → (String → String) → Body → Option RegisterIn
unfolding field
register_in wide nfkc body =
    if not (only_keys ("username" ∷ "email" ∷ "password" ∷ []) body) then none else (do
      username ← field "username" 3 30 body
      email ← field "email" 0 254 body
      password ← field "password" 12 256 body
      if is_valid_register wide nfkc username email password
          then some (record {
            username = username;
            email = lower wide (strip email);
            password = password;
          })
          else none)

unfoldable pub login_in : Body → Option LoginIn
unfolding field check_otp
login_in body = if not (only_keys ("username" ∷ "password" ∷ "otp" ∷ []) body) then none else (do
  username ← field "username" 1 64 body
  password ← field "password" 1 256 body
  otp ← check_otp (lookup "otp" body)
  some (record { username = username; password = password; otp = otp }))

refresh_in : Body → Option String
unfolding field
refresh_in body =
    if not (only_keys ("refresh_token" ∷ []) body) then none else field "refresh_token" 10 4096 body

unfoldable pub mfa_verify_in : Body → Option String
unfolding field
mfa_verify_in body = if not (only_keys ("otp" ∷ []) body) then none else field "otp" 6 8 body

-- The title and the body of a note, or the label and the value of a secret.
note_in : Body → Option (String × String)
unfolding field
note_in body = if not (only_keys ("title" ∷ "body" ∷ []) body) then none else (do
  title ← field "title" 1 200 body
  note_body ← field "body" 1 10000 body
  some (title, note_body))

unfoldable pub secret_in : Body → Option (String × String)
unfolding field
secret_in body = if not (only_keys ("label" ∷ "value" ∷ []) body) then none else (do
  label ← field "label" 1 120 body
  value ← field "value" 1 4096 body
  some (label, value))

ping_in : Body → Option String
unfolding field
ping_in body = if not (only_keys ("host" ∷ []) body) then none else field "host" 1 253 body
