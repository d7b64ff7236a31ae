-- ===== src/Security/Cipher.antt =====
-- secure_app/crypto.py: the values of the secrets at rest. The key is built into the cipher.
use text.Mathlib.TextLemmas.{cons-append}
use honeypot_m1spro.Base.{
  ℕ, String, ◌≡◌, refl, sym, ap, ◌∙◌, Option, none, some, ◌<>◌, size, skip, skip-size, keep,
}
use honeypot_m1spro.Security.{Services, IsLawful}

abbrev pub nonce_len : ℕ
nonce_len = 12

-- The steps of `decrypt` after the base64.
abbrev text_of : Services → Option String → Option String
text_of s none = none
text_of s (some plain) = s.utf8_decode plain

abbrev open_raw : Services → Option String → Option String
open_raw s none = none
open_raw s (some raw) = text_of s (s.aead_decrypt (keep nonce_len raw) (skip nonce_len raw))

-- `encrypt`, the nonce that it draws being an argument.
unfoldable pub encrypt : Services → String → String → String
encrypt s nonce plaintext = s.b64_encode (nonce <> s.aead_encrypt nonce (s.utf8_encode plaintext))

-- `decrypt`; `none` is any exception.
unfoldable pub decrypt : Services → String → Option String
decrypt s token = open_raw s (s.b64_decode token)

keep-size : (a b : String) → keep (size a) (a <> b) ≡ a
keep-size String.[] b = refl
keep-size (String.◌∷◌ c a) b =
    ap (keep (size (String.◌∷◌ c a))) (cons-append c a b) ∙ ap (String.◌∷◌ c) (keep-size a b)

-- What is encrypted with a nonce of twelve bytes is read back: the nonce is cut off where it ends.
pub decrypt-encrypt :
    (s : Services)
    → IsLawful s
    → (nonce value : String) → size nonce ≡ nonce_len
    → decrypt s (encrypt s nonce value) ≡ some value
unfolding decrypt encrypt
decrypt-encrypt s law nonce value h =
    let sealed = s.aead_encrypt nonce (s.utf8_encode value) in
    let first : keep nonce_len (nonce <> sealed) ≡ nonce =
      ap (λ n. keep n (nonce <> sealed)) (sym h) ∙ keep-size nonce sealed in
    let last : skip nonce_len (nonce <> sealed) ≡ sealed =
      ap (λ n. skip n (nonce <> sealed)) (sym h) ∙ skip-size nonce sealed in
    ap (open_raw s) (law.b64_decode-b64_encode (nonce <> sealed))
    ∙ ap (λ n. text_of s (s.aead_decrypt n (skip nonce_len (nonce <> sealed)))) first
    ∙ ap (λ c. text_of s (s.aead_decrypt nonce c)) last
    ∙ ap (text_of s) (law.aead_decrypt-aead_encrypt nonce (s.utf8_encode value))
    ∙ law.utf8_decode-utf8_encode value
