-- ===== src/Vault/Secrets.antt =====
-- The life of a secret: it is read back by its owner alone, in clear only by its identifier.
use honeypot_m1spro.Base.{
  ℕ, String, ◌≡◌, ap, inl, inr, not, ◌||◌, some, [], map, arith, ◌==◌, if◌then◌else◌, Bool-cases,
  is_some, any, size,
}
use honeypot_m1spro.Http.{ok, http_error}
use honeypot_m1spro.Database.{has_user, create_secret, get_secret_for_owner, Secret, Profile}
use honeypot_m1spro.Database.Ownership.{
  rows_of, rows_of_others, notes_isolated, secrets_isolated, delete_secret-frame,
}
use honeypot_m1spro.Security.{Services, IsLawful}
use honeypot_m1spro.Security.Cipher.{nonce_len, encrypt, decrypt-encrypt}
use honeypot_m1spro.Auth.{App}
use honeypot_m1spro.Vault.{
  note_out, list_notes, get_note, create_secret_route, secret_item, list_secrets, reveal_secret,
  delete_secret, SecretOut,
}
use honeypot_m1spro.Vault.Access.{fetch_one-last}

module _ (s : Services) where
  -- A secret that is stored with a nonce of twelve bytes is read back in clear by its owner, and is
  -- missing for anybody else.
  pub create_secret-reveal_secret :
      IsLawful s
      → (label value secret_id nonce : String) (now : ℕ) (user reader : Profile) (app : App)
        {out : SecretOut}
      → size nonce ≡ nonce_len
      → (create_secret_route s label value secret_id nonce now user app).0 ≡ ok out
      → (reveal_secret s secret_id reader
          (create_secret_route s label value secret_id nonce now user app).1).0
        ≡ (if user.id == reader.id
            then ok (record { id = secret_id; label = label; value = value; created_at = some now })
            else http_error 404 "Secret introuvable." [])
  unfolding create_secret_route reveal_secret create_secret get_secret_for_owner
  create_secret-reveal_secret law label value secret_id nonce now user reader app {out} long e =
      elim (Bool-cases
        (any (λ r. r.id == secret_id) app.db.secrets || not (has_user app.db user.id))) [
          | inl refused ↦ absurd (ground arith)
          | inr free ↦
              let row : Secret = record {
                id = secret_id;
                owner_id = user.id;
                label = label;
                value_enc = encrypt s nonce value;
                created_at = now;
              } in
              let found =
                fetch_one-last (λ r. r.id) (λ r. r.owner_id) reader.id app.db.secrets row
                  (ground arith) in
              ground (arith, found, decrypt-encrypt s law nonce value long)
        ]

  -- What a user gets from each route that reads is what it would get if the rows of the others did
  -- not exist: no answer, not even an error, depends on them.
  pub reads_isolated :
      (id : String) (user : Profile) (app : App)
      → let alone : App = record app { db = rows_of user.id app.db } in
        ((get_note id user app).0 ≡ (get_note id user alone).0)
        × ((list_notes user app).0 ≡ (list_notes user alone).0)
        × ((reveal_secret s id user app).0 ≡ (reveal_secret s id user alone).0)
        × ((list_secrets s user app).0 ≡ (list_secrets s user alone).0)
  unfolding get_note list_notes reveal_secret list_secrets
  reads_isolated id user app =
      let (note, notes) = notes_isolated app.db user.id id in
      let (secret, secrets) = secrets_isolated app.db user.id id in
      (
        ground (arith, note),
        ap (λ rows. ok (map note_out rows)) notes,
        ground (arith, secret),
        ap (λ rows. ok (map (secret_item s) rows)) secrets,
      )

-- A deletion answers 404 to a user who owns no such secret and success to its owner; afterwards the
-- user finds no secret of that identifier, and the rows of the others are the same.
pub delete_secret-owned :
    (s : Services) (id : String) (user : Profile) (app : App)
    → ((delete_secret id user app).0 ≡ (
        if is_some (get_secret_for_owner app.db id user.id)
        then ok "Secret supprimé."
        else http_error 404 "Secret introuvable." []))
      × ((reveal_secret s id user (delete_secret id user app).1).0
          ≡ http_error 404 "Secret introuvable." [])
      × (rows_of_others user.id (delete_secret id user app).1.db ≡ rows_of_others user.id app.db)
unfolding delete_secret reveal_secret
delete_secret-owned s id user app =
    let (found, gone, others) = delete_secret-frame app.db user.id id in
    (ground (arith, found), ground (arith, gone), ground (arith, others))
