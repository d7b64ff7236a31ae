-- ===== src/Auth/Sessions.antt =====
-- The life of a token: whom it authenticates, its single use for a refresh, its revocation.
use mathlib.Core.Option
use honeypot_m1spro.Base.{
  ℕ, String, ◌≡◌, refl, ap, inl, inr, false, Option, none, some, [], arith, ◌==◌, eq_iff,
  Option-cases, fetch_one-some,
}
use honeypot_m1spro.Http.{ok, http_error}
use honeypot_m1spro.Database.{get_user_by_id, Database, Profile}
use honeypot_m1spro.Security.{
  create_access_token, create_refresh_token, is_revoked, revoke_token, decode_token, Claims,
  Services, IsLawful, Settings,
}
use honeypot_m1spro.Security.Tokens.{
  decode_token_sound, decode_token-again, decode_token-other_type,
}
use honeypot_m1spro.Auth.{
  unauthorized, invalid_refresh, get_current_user, issue_tokens, refresh, revoke_credentials,
  with_user, logout, App, Credentials, TokenOut, Draws,
}

get_user_by_id-id :
    (db : Database) (id : String) {p : Profile} → get_user_by_id db id ≡ some p → p.id ≡ id
unfolding get_user_by_id
get_user_by_id-id db id {p} e =
    let (u, found, same) = (Option.map-eq-some_iff _ _).0 e in
    let hit = fetch_one-some (λ v. v.id == id) db.users found in
    rw (← same) ((eq_iff u.id id).0 hit)

module _ (s : Services) (settings : Settings) where
  -- A request is authenticated only by a bearer token that decodes now, is an access token and is not
  -- revoked, and then as the account that the token names.
  pub get_current_user_sound :
      (app : App) (now : ℕ) (credentials : Option Credentials) {p : Profile}
      → get_current_user s settings app now credentials ≡ ok p
      → (c : Credentials) × (payload : Claims) × (credentials ≡ some c)
        × (s.jwt_decode now c.token ≡ some payload)
        × (payload.type_claim ≡ "access")
        × (is_revoked app.revoked payload.jti ≡ false)
        × (get_user_by_id app.db payload.sub ≡ some p)
        × (p.id ≡ payload.sub)
  unfolding get_current_user
  get_current_user_sound app now none e = absurd (ground arith)
  get_current_user_sound app now (some c) {p} e =
      elim (Option-cases (decode_token s app.revoked now c.token "access")) [
        | inl bad ↦ absurd (ground arith)
        | inr (payload, good) ↦
            let (decoded, kind, live) =
              decode_token_sound s app.revoked now c.token "access" good in
            (
              c,
              payload,
              refl,
              decoded,
              kind,
              live,
              ground arith,
              get_user_by_id-id app.db payload.sub {p = p} (ground arith),
            )
      ]

  refresh-none :
      (token : String) (draws : Draws) (now : ℕ) (app : App)
      → decode_token s app.revoked now token "refresh" ≡ none
      → refresh s settings token draws now app ≡ (invalid_refresh, app)
  unfolding refresh
  refresh-none token draws now app e = rw (e, refresh) refl

  refresh-ok :
      (token : String) (draws : Draws) (now : ℕ) (app : App) {t : TokenOut}
      → (refresh s settings token draws now app).0 ≡ ok t
      → (c : Claims) × (decode_token s app.revoked now token "refresh" ≡ some c)
        × ((refresh s settings token draws now app).1.revoked ≡ revoke_token app.revoked c.jti)
  unfolding refresh
  refresh-ok token draws now app e =
      elim (Option-cases (decode_token s app.revoked now token "refresh")) [
        | inl bad ↦ absurd (ground arith)
        | inr (c, good) ↦ (c, good, ground arith)
      ]

  -- A refresh token works once: after a refresh with it, a second one is refused at any later time.
  pub refresh_once :
      IsLawful s
      → (token : String) (draws again : Draws) (now later : ℕ) (app : App) {t : TokenOut}
      → (refresh s settings token draws now app).0 ≡ ok t
      → (refresh s settings token again later (refresh s settings token draws now app).1).0
        ≡ http_error 401 "Refresh token invalide." []
  refresh_once law token draws again now later app e =
      let (c, decoded, revoked) = refresh-ok token draws now app e in
      let app' = (refresh s settings token draws now app).1 in
      let refused : decode_token s app'.revoked later token "refresh" ≡ none =
        rw revoked
          (decode_token-again s law app.revoked now later token "refresh" "refresh" decoded) in
      ap (λ r. r.0) (refresh-none token again later app' refused)

  get_current_user-none :
      (app : App) (now : ℕ) (c : Credentials)
      → decode_token s app.revoked now c.token "access" ≡ none
      → get_current_user s settings app now (some c) ≡ unauthorized
  unfolding get_current_user
  get_current_user-none app now c e = ground arith

  logout-ok :
      (c : Credentials) (now : ℕ) (app : App)
      → (logout s settings (some c) now app).0 ≡ ok "Déconnecté."
      → (payload : Claims) × (decode_token s app.revoked now c.token "access" ≡ some payload)
        × ((logout s settings (some c) now app).1.revoked ≡ revoke_token app.revoked payload.jti)
  unfolding logout with_user revoke_credentials get_current_user
  logout-ok c now app e = elim (Option-cases (decode_token s app.revoked now c.token "access")) [
    | inl bad ↦ absurd (ground arith)
    | inr (payload, good) ↦ (payload, good, ground arith)
  ]

  -- After a logout the same credentials authenticate nobody, at any later time.
  pub logout_revokes :
      IsLawful s
      → (credentials : Option Credentials) (now later : ℕ) (app : App)
      → (logout s settings credentials now app).0 ≡ ok "Déconnecté."
      → get_current_user s settings (logout s settings credentials now app).1 later credentials
        ≡ unauthorized
  unfolding get_current_user
  logout_revokes law none now later app e = refl
  logout_revokes law (some c) now later app e =
      let (payload, decoded, revoked) = logout-ok c now app e in
      let app' = (logout s settings (some c) now app).1 in
      get_current_user-none app' later c (
        rw revoked
          (decode_token-again s law app.revoked now later c.token "access" "access" decoded))

  -- A refresh token that the application issues authenticates no request, and an access token is
  -- refused as a refresh token.
  pub tokens_not_interchangeable :
      IsLawful s
      → (user_id scheme : String) (draws again : Draws) (issued now : ℕ) (app : App)
      → (get_current_user s settings app now (
            some (record {
              scheme = scheme;
              token = (issue_tokens s settings user_id draws issued).refresh_token;
            }))
          ≡ unauthorized)
        × (refresh s settings
              (issue_tokens s settings user_id draws issued).access_token
              again
              now
              app
            ≡ (invalid_refresh, app))
  unfolding issue_tokens create_access_token create_refresh_token
  tokens_not_interchangeable law user_id scheme draws again issued now app = (
    get_current_user-none app now _ (
        decode_token-other_type s law app.revoked user_id "refresh" draws.refresh_jti "access" _
          issued now (λ e. cc ((eq_iff "refresh" "access").1 e))),
    refresh-none _ again now app (
        decode_token-other_type s law app.revoked user_id "access" draws.access_jti "refresh" _
          issued now (λ e. cc ((eq_iff "access" "refresh").1 e))),
  )
