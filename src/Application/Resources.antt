-- ===== src/Application/Resources.antt =====
-- What the handlers of the notes and the secrets do to the constraints of the schema.
use honeypot_m1spro.Base.{ℕ, String, ◌≡◌, refl, inl, inr, arith, Option-cases}
use honeypot_m1spro.Database.{
  create_note, delete_note_for_owner, create_secret, delete_secret_for_owner, Profile,
}
use honeypot_m1spro.Database.Constraints.{IsConsistent}
use honeypot_m1spro.Database.Constraints.Resources.{
  create_note-IsConsistent, create_secret-IsConsistent,
}
use honeypot_m1spro.Security.{Services}
use honeypot_m1spro.Security.Cipher.{encrypt}
use honeypot_m1spro.Auth.{App}
use honeypot_m1spro.Vault.{
  me, create_note_route, list_notes, get_note, delete_note, create_secret_route, list_secrets,
  reveal_secret, delete_secret,
}

module _ (s : Services) where
  pub create_note_route-IsConsistent :
      (title body note_id : String) (now : ℕ) (user : Profile) (app : App)
      → IsConsistent app.db
      → IsConsistent (create_note_route title body note_id now user app).1.db
  unfolding create_note_route
  create_note_route-IsConsistent title body note_id now user app k =
      elim (Option-cases (create_note app.db note_id user.id title body now)) [
        | inl clash ↦ rw (clash, create_note_route) k
        | inr ((n, db), made) ↦
            rw (made, create_note_route)
              (create_note-IsConsistent app.db note_id user.id title body now k made)
      ]

  pub create_secret_route-IsConsistent :
      (label value secret_id nonce : String) (now : ℕ) (user : Profile) (app : App)
      → IsConsistent app.db
      → IsConsistent (create_secret_route s label value secret_id nonce now user app).1.db
  unfolding create_secret_route
  create_secret_route-IsConsistent label value secret_id nonce now user app k =
      elim (Option-cases
        (create_secret app.db secret_id user.id label (encrypt s nonce value) now)) [
          | inl clash ↦ rw (clash, create_secret_route) k
          | inr ((n, db), made) ↦
              rw (made, create_secret_route)
                (create_secret-IsConsistent app.db secret_id user.id label (encrypt s nonce value)
                  now k made)
        ]

  pub reads-db :
      (id : String) (user : Profile) (app : App)
      → ((me user app).1.db ≡ app.db)
        × ((list_notes user app).1.db ≡ app.db)
        × ((get_note id user app).1.db ≡ app.db)
        × ((list_secrets s user app).1.db ≡ app.db)
        × ((reveal_secret s id user app).1.db ≡ app.db)
  unfolding me list_notes get_note list_secrets reveal_secret
  reads-db id user app = (refl, refl, ground arith, refl, ground arith)

  pub deletes-db :
      (id : String) (user : Profile) (app : App)
      → ((delete_note id user app).1.db ≡ (delete_note_for_owner app.db id user.id).1)
        × ((delete_secret id user app).1.db ≡ (delete_secret_for_owner app.db id user.id).1)
  unfolding delete_note delete_secret
  deletes-db id user app = (ground arith, ground arith)
