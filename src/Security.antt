-- ===== src/Security.antt =====
-- secure_app/security.py, and the services that it calls: Argon2, PyJWT and pyotp.
pub mod Tokens
pub mod Model
pub mod Cipher
use honeypot_m1spro.Base.{
  ℕ, ◌+◌, ◌≤◌, ◌<◌, Char, code, String, ◌≡◌, Bool, true, false, not, ◌&&◌, ◌||◌, Option, none, some,
  List, [], ◌∷◌, ◌==◌, ltb, if◌then◌else◌, any,
}
use honeypot_m1spro.Validators.Chars.{is_digit}

-- The claims of a token, times in seconds.
pub record Claims : Type 0 where
  pub sub : String
  pub type_claim : String
  pub jti : String
  pub iat : ℕ
  pub exp : ℕ

-- What `PasswordHasher.verify` does: return, or raise one of the two exceptions that are caught.
pub data Verification : Type 0 where
  matches mismatch invalid_hash : Verification

-- The third-party operations, with the keys of the application built in. A hash takes its random
-- salt as an argument, a decoding and a one-time code the current second.
pub record Services : Type 0 where
  pub hash : String → String → String
  pub verify : String → String → Verification
  -- `none` is `InvalidHashError`.
  pub check_needs_rehash : String → Option Bool
  pub jwt_encode : Claims → String
  -- `none` is `jwt.InvalidTokenError`: a bad signature, algorithm or expiry, or a claim missing.
  pub jwt_decode : ℕ → String → Option Claims
  pub totp_verify : ℕ → String → String → Bool
  -- AES-256-GCM, whose first argument is the nonce, URL-safe base64 and UTF-8; bytes are characters,
  -- and `none` is an exception.
  pub aead_encrypt : String → String → String
  pub aead_decrypt : String → String → Option String
  pub b64_encode : String → String
  pub b64_decode : String → Option String
  pub utf8_encode : String → String
  pub utf8_decode : String → Option String
  -- `str.lower` and `str.isdigit` of a character that is not ASCII.
  pub wide_lower : Char → String
  pub wide_digit : Char → Bool

-- What the program relies on.
pub record IsLawful (s : Services) : Type 0 where
  pub verify-hash : (salt password : String) → s.verify (s.hash salt password) password ≡ matches
  pub decode-encode :
      (c : Claims) (now : ℕ)
      → c.iat ≤ now
      → now < c.exp
      → s.jwt_decode now (s.jwt_encode c) ≡ some c
  pub decode-encode_only :
      (c d : Claims) (now : ℕ) → s.jwt_decode now (s.jwt_encode c) ≡ some d → d ≡ c
  pub decode-same :
      (token : String) (c d : Claims) (now later : ℕ)
      → s.jwt_decode now token ≡ some c
      → s.jwt_decode later token ≡ some d
      → d ≡ c
  pub aead_decrypt-aead_encrypt :
      (nonce plain : String) → s.aead_decrypt nonce (s.aead_encrypt nonce plain) ≡ some plain
  pub b64_decode-b64_encode : (bytes : String) → s.b64_decode (s.b64_encode bytes) ≡ some bytes
  pub utf8_decode-utf8_encode : (text : String) → s.utf8_decode (s.utf8_encode text) ≡ some text

-- The settings that the handlers read.
pub record Settings : Type 0 where
  pub access_ttl_seconds : ℕ
  pub refresh_ttl_seconds : ℕ

module _ (s : Services) where
  unfoldable pub verify_password : String → String → Bool
  verify_password stored_hash password = elim (s.verify stored_hash password) [
    | matches ↦ true
    | mismatch ↦ false
    | invalid_hash ↦ false
  ]

  unfoldable pub needs_rehash : String → Bool
  needs_rehash stored_hash = elim (s.check_needs_rehash stored_hash) [
    | none ↦ true
    | some answer ↦ answer
  ]

  unfoldable pub create_token : String → String → ℕ → String → ℕ → String
  create_token sub token_type ttl jti now =
      s.jwt_encode
        (record { sub = sub; type_claim = token_type; jti = jti; iat = now; exp = now + ttl })

  unfoldable pub create_access_token : Settings → String → String → ℕ → String
  unfolding create_token
  create_access_token settings user_id jti now =
      create_token user_id "access" settings.access_ttl_seconds jti now

  unfoldable pub create_refresh_token : Settings → String → String → ℕ → String
  unfolding create_token
  create_refresh_token settings user_id jti now =
      create_token user_id "refresh" settings.refresh_ttl_seconds jti now

  -- `code.isdigit()`.
  unfoldable pub all_digits : String → Bool
  all_digits String.[] = true
  all_digits (String.◌∷◌ c code_text) =
      (if ltb (code c) 128 then is_digit (code c) else s.wide_digit c) && all_digits code_text

  -- `verify_totp`; without a stored secret pyotp raises, which `none` stands for.
  unfoldable pub verify_totp : ℕ → Option String → String → Option Bool
  verify_totp now secret otp =
      if otp == "" || not (all_digits otp)
      then some false
      else elim secret [ none ↦ none | some key ↦ some (s.totp_verify now key otp) ]

-- The set of revoked `jti`, as a list.
unfoldable pub is_revoked : List String → String → Bool
is_revoked revoked jti = any (λ j. j == jti) revoked

unfoldable pub revoke_token : List String → String → List String
revoke_token revoked jti = jti ∷ revoked

-- `decode_token`: `none` if invalid, expired, of the wrong type or revoked.
unfoldable pub decode_token : Services → List String → ℕ → String → String → Option Claims
decode_token s revoked now token expected_type = elim (s.jwt_decode now token) [
  | none ↦ none
  | some payload ↦
      if not (payload.type_claim == expected_type)
      then none
      else if is_revoked revoked payload.jti
      then none
      else some payload
]
