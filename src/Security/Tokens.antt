-- ===== src/Security/Tokens.antt =====
-- What a decoded token guarantees, and what a revocation does.
use honeypot_m1spro.Base.{
  ℕ, ◌+◌, ◌≤◌, ◌<◌, String, ◌≡◌, refl, ap, ◌≢◌, inl, inr, true, false, ◌||◌, none, some, List,
  arith, ◌==◌, eq_iff, eq_refl, Option-cases, ==-false,
}
use honeypot_m1spro.Security.{
  create_token, is_revoked, revoke_token, decode_token, Claims, Services, IsLawful,
}

is_revoked-revoke_token :
    (revoked : List String) (j k : String)
    → is_revoked (revoke_token revoked j) k ≡ (j == k || is_revoked revoked k)
unfolding is_revoked revoke_token
is_revoked-revoke_token revoked j k = refl

-- A token is accepted only if its signature and expiry are, its type is the expected one and it is
-- not revoked; the claims are those of the token.
pub decode_token_sound :
    (s : Services) (revoked : List String) (now : ℕ) (token expected : String) {c : Claims}
    → decode_token s revoked now token expected ≡ some c
    → (s.jwt_decode now token ≡ some c)
      × (c.type_claim ≡ expected)
      × (is_revoked revoked c.jti ≡ false)
unfolding decode_token
decode_token_sound s revoked now token expected {c} e =
    elim (Option-cases (s.jwt_decode now token)) [
      | inl bad ↦ absurd (ground arith)
      | inr (payload, good) ↦ ground (arith, eq_iff payload.type_claim expected)
    ]

-- Once the identifier of a token is revoked the token is refused for good, whatever is revoked later.
decode_token-revoked :
    (s : Services) (revoked : List String) (now : ℕ) (token expected : String) {c : Claims}
    → s.jwt_decode now token ≡ some c
    → is_revoked revoked c.jti ≡ true
    → decode_token s revoked now token expected ≡ none
unfolding decode_token
decode_token-revoked s revoked now token expected e r = ground arith

-- A fresh token is accepted until it expires.
pub decode_token-create_token :
    (s : Services)
    → IsLawful s
    → (revoked : List String) (sub token_type jti : String) (ttl issued now : ℕ) → issued ≤ now
    → now < issued + ttl
    → is_revoked revoked jti ≡ false
    → decode_token s revoked now (create_token s sub token_type ttl jti issued) token_type
      ≡ some (record {
        sub = sub;
        type_claim = token_type;
        jti = jti;
        iat = issued;
        exp = issued + ttl;
      })
unfolding decode_token create_token
decode_token-create_token s law revoked sub token_type jti ttl issued now begun h free =
    let claims : Claims = record {
      sub = sub;
      type_claim = token_type;
      jti = jti;
      iat = issued;
      exp = issued + ttl;
    } in
    rw (law.decode-encode claims now begun h, decode_token) (ground (arith, eq_refl token_type))

-- The token that was decoded is refused once its identifier is revoked, at any time and as any type.
pub decode_token-again :
    (s : Services)
    → IsLawful s
    → (revoked : List String) (now later : ℕ) (token expected other : String) {c : Claims}
    → decode_token s revoked now token expected ≡ some c
    → decode_token s (revoke_token revoked c.jti) later token other ≡ none
decode_token-again s law revoked now later token expected other {c} e =
    let (decoded, _, _) = decode_token_sound s revoked now token expected e in
    elim (Option-cases (s.jwt_decode later token)) [
      | inl expired ↦ unfold decode_token in rw (expired, decode_token) refl
      | inr (d, again) ↦
          let same : d ≡ c = law.decode-same token c d now later decoded again in
          decode_token-revoked s (revoke_token revoked c.jti) later token other again
            (rw same (rw (is_revoked-revoke_token revoked c.jti c.jti, eq_refl c.jti) refl))
    ]

-- A token that the application made is refused as any type but its own.
pub decode_token-other_type :
    (s : Services)
    → IsLawful s
    → (revoked : List String) (sub token_type jti other : String) (ttl issued now : ℕ)
    → token_type ≢ other
    → decode_token s revoked now (create_token s sub token_type ttl jti issued) other ≡ none
decode_token-other_type s law revoked sub token_type jti other ttl issued now apart =
    let token : String = create_token s sub token_type ttl jti issued in
    elim (Option-cases (s.jwt_decode now token)) [
      | inl bad ↦ unfold decode_token in rw (bad, decode_token) refl
      | inr (d, good) ↦
          let claims : Claims = record {
            sub = sub;
            type_claim = token_type;
            jti = jti;
            iat = issued;
            exp = issued + ttl;
          } in
          let same : d ≡ claims =
            law.decode-encode_only claims d now (unfold create_token in good) in
          let kind : d.type_claim ≡ token_type = ap (λ c. c.type_claim) same in
          unfold decode_token in
          rw (good, decode_token) (rw (kind, ==-false token_type other apart) refl)
    ]
