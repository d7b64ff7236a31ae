-- ===== src/Security/Model.antt =====
-- Services that satisfy what the program relies on, with which the statements about it are run: a
-- hash is the password, a token its claims written out, and the cipher a mark before the text.
use mathlib.Core.Option
use mathlib.Core.Option.{some-injective}
use honeypot_m1spro.Base.{
  ℕ, zero, suc, Char, code, String, ◌≡◌, refl, sym, ◌∙◌, false, ◌&&◌, Option, none, some, arith,
  ◌==◌, eq_refl, ltb, leb, eqb, if◌then◌else◌, skip,
}
use honeypot_m1spro.Security.{Claims, matches, mismatch, Services, IsLawful}

infixl 5 ◌>>=◌
abbrev ◌>>=◌ : {A B : Type 0} → Option A → (A → Option B) → Option B
none >>= f = none
some a >>= f = f a

abbrev dot : Char
dot = "."

-- A text behind which another one can be found again.
abbrev quote : String → String → String
quote String.[] rest = String.◌∷◌ dot rest
quote (String.◌∷◌ c s) rest = String.◌∷◌ "-" (String.◌∷◌ c (quote s rest))

abbrev add_char : Char → String × String → String × String
add_char c (s, rest) = (String.◌∷◌ c s, rest)

abbrev unquote : String → Option (String × String)
unquote String.[] = none
unquote (String.◌∷◌ c String.[]) = if eqb (code c) b'.' then some ("", "") else none
unquote (String.◌∷◌ c (String.◌∷◌ d t)) =
    let rest = unquote t in
    if eqb (code c) b'.' then some ("", String.◌∷◌ d t) else Option.map (add_char d) rest

unquote-quote : (s rest : String) → unquote (quote s rest) ≡ some (s, rest)
unquote-quote String.[] String.[] = refl
unquote-quote String.[] (String.◌∷◌ d t) = refl
unquote-quote (String.◌∷◌ c s) rest = rw (unquote-quote s rest) refl

abbrev tally : ℕ → String → String
tally zero rest = String.◌∷◌ dot rest
tally (suc n) rest = String.◌∷◌ "-" (tally n rest)

abbrev add_one : ℕ × String → ℕ × String
add_one (n, rest) = (suc n, rest)

abbrev untally : String → Option (ℕ × String)
untally String.[] = none
untally (String.◌∷◌ c t) =
    let rest = untally t in if eqb (code c) b'.' then some (zero, t) else Option.map add_one rest

untally-tally : (n : ℕ) (rest : String) → untally (tally n rest) ≡ some (n, rest)
untally-tally zero rest = refl
untally-tally (suc n) rest = rw (untally-tally n rest) refl

abbrev write_claims : Claims → String
write_claims c = quote c.sub (quote c.type_claim (quote c.jti (tally c.iat (tally c.exp ""))))

abbrev read_claims : String → Option Claims
read_claims token = do
  (sub, t) ← unquote token
  (type_claim, t) ← unquote t
  (jti, t) ← unquote t
  (iat, t) ← untally t
  (exp, _) ← untally t
  some (record { sub = sub; type_claim = type_claim; jti = jti; iat = iat; exp = exp })

read_claims-write_claims : (c : Claims) → read_claims (write_claims c) ≡ some c
read_claims-write_claims c =
    rw (unquote-quote, read_claims)
      (rw (unquote-quote) (rw (unquote-quote) (rw (untally-tally) (rw (untally-tally) refl))))

abbrev decode_at : ℕ → String → Option Claims
decode_at now token = elim (read_claims token) [
  | none ↦ none
  | some c ↦ if leb c.iat now && ltb now c.exp then some c else none
]

abbrev pub model : Services
model = record {
  hash = λ salt password. password;
  verify = λ stored password. if stored == password then matches else mismatch;
  check_needs_rehash = λ stored. some false;
  jwt_encode = write_claims;
  jwt_decode = decode_at;
  totp_verify = λ now key code_text. code_text == "123456";
  aead_encrypt = λ nonce plain. String.◌∷◌ "#" plain;
  aead_decrypt = λ nonce sealed. some (skip 1 sealed);
  b64_encode = λ bytes. bytes;
  b64_decode = λ text. some text;
  utf8_encode = λ text. text;
  utf8_decode = λ bytes. some bytes;
  wide_lower = λ c. String.◌∷◌ c "";
  wide_digit = λ c. false;
}

decode_at-read :
    (now : ℕ) (token : String) {c : Claims}
    → decode_at now token ≡ some c
    → read_claims token ≡ some c
decode_at-read now token e = ground arith

pub model-IsLawful : IsLawful model
model-IsLawful = record {
  verify-hash = λ salt password. rw (eq_refl password) refl;
  decode-encode = λ c now begun alive. rw (read_claims-write_claims c, decode_at) (ground arith);
  decode-encode_only = λ c d now e. sym (
      some-injective c d
        (sym (read_claims-write_claims c) ∙ decode_at-read now (write_claims c) e));
  decode-same = λ token c d now later a b.
      some-injective d c (sym (decode_at-read later token b) ∙ decode_at-read now token a);
  aead_decrypt-aead_encrypt = λ nonce plain. refl;
  b64_decode-b64_encode = λ bytes. refl;
  utf8_decode-utf8_encode = λ text. refl;
}
