-- ===== src/Vault/Tests.antt =====
-- The notes and the secrets of two users.
use honeypot_m1spro.Base.{
  fetch_one, delete_where, insert_desc, order_desc, ◌≡◌, refl, none, some, [], ◌∷◌, arith, ◌<>◌,
}
use honeypot_m1spro.Http.{ok, http_error}
use honeypot_m1spro.Database.{
  profile_of, create_note, get_note_for_owner, list_notes_for_owner, delete_note_for_owner,
  create_secret, get_secret_for_owner, list_secrets_for_owner, delete_secret_for_owner,
}
use honeypot_m1spro.Database.Ownership.{rows_of, rows_of_others}
use honeypot_m1spro.Security.Cipher.{encrypt, decrypt}
use honeypot_m1spro.Security.Model.{model, model-IsLawful}
use honeypot_m1spro.Auth.{App}
use honeypot_m1spro.Auth.Tests.{alice, bob, app}
use honeypot_m1spro.Vault.{
  me, create_note_route, list_notes, get_note, delete_note, preview, mask, create_secret_route,
  list_secrets, reveal_secret, delete_secret, NoteOut,
}
use honeypot_m1spro.Vault.Access.{create_note-get_note}
use honeypot_m1spro.Vault.Secrets.{create_secret-reveal_secret, reads_isolated, delete_secret-owned}
use honeypot_m1spro.Vault.Preview.{mask-hides}

abbrev stored : App
stored = record app {
  db = record app.db {
    notes =
        record { id = "n-1"; owner_id = "u-1"; title = "t"; body = "of alice"; created_at = 5 }
        ∷ record { id = "n-2"; owner_id = "u-2"; title = "t"; body = "of bob"; created_at = 6 }
        ∷ record { id = "n-3"; owner_id = "u-1"; title = "t"; body = "newer"; created_at = 7 }
        ∷ [];
    secrets =
        record {
          id = "s-1";
          owner_id = "u-1";
          label = "key";
          value_enc = "nonce-nonce-#sk-live-3f";
          created_at = 5;
        }
        ∷ record {
          id = "s-2";
          owner_id = "u-2";
          label = "pin";
          value_enc = "nonce-nonce-#1234";
          created_at = 6;
        }
        ∷ [];
  };
}

vault : Unit {0}
unfolding me create_note_route list_notes get_note delete_note mask preview create_secret_route
    list_secrets reveal_secret delete_secret create_note get_note_for_owner list_notes_for_owner
    delete_note_for_owner create_secret get_secret_for_owner list_secrets_for_owner
    delete_secret_for_owner fetch_one delete_where order_desc insert_desc encrypt decrypt
vault = tt

routes :
    ((list_notes (profile_of alice) stored).0
      ≡ ok (
          record { id = "n-3"; owner_id = "u-1"; title = "t"; body = "newer" }
          ∷ record { id = "n-1"; owner_id = "u-1"; title = "t"; body = "of alice" }
          ∷ []))
    × ((get_note "n-2" (profile_of alice) stored).0 ≡ http_error 404 "Note introuvable." [])
    × ((list_secrets model (profile_of alice) stored).0
        ≡ ok (record { id = "s-1"; label = "key"; preview = "sk••••••3f"; created_at = 5 } ∷ []))
    × ((list_secrets model (profile_of bob) stored).0
        ≡ ok (record { id = "s-2"; label = "pin"; preview = "••••"; created_at = 6 } ∷ []))
    × ((reveal_secret model "s-2" (profile_of bob) stored).0
        ≡ ok (record { id = "s-2"; label = "pin"; value = "1234"; created_at = some 6 }))
unfolding vault
routes = (refl, refl, refl, refl, refl)

reads_isolated_example :
    ((get_note "n-2" (profile_of alice) stored).0
      ≡ (get_note "n-2" (profile_of alice) (record stored { db = rows_of "u-1" stored.db })).0)
    × ((list_notes (profile_of alice) stored).0
        ≡ (list_notes (profile_of alice) (record stored { db = rows_of "u-1" stored.db })).0)
    × ((reveal_secret model "n-2" (profile_of alice) stored).0
        ≡ (reveal_secret model "n-2"
            (profile_of alice)
            (record stored { db = rows_of "u-1" stored.db })).0)
    × ((list_secrets model (profile_of alice) stored).0
        ≡ (list_secrets model
            (profile_of alice)
            (record stored { db = rows_of "u-1" stored.db })).0)
reads_isolated_example = reads_isolated model "n-2" (profile_of alice) stored

abbrev note_9 : NoteOut
note_9 = record { id = "n-9"; owner_id = "u-2"; title = "t"; body = "b" }

create_note-get_note_run :
    (note_9 ≡ note_9)
    × ((get_note "n-9"
          (profile_of alice)
          (create_note_route "t" "b" "n-9" 9 (profile_of bob) stored).1).0
        ≡ http_error 404 "Note introuvable." [])
unfolding vault
create_note-get_note_run =
    create_note-get_note "t" "b" "n-9" 9 (profile_of bob) (profile_of alice) stored {out = note_9}
      refl

create_secret-reveal_secret_example :
    (reveal_secret model "s-9"
      (profile_of bob)
      (create_secret_route model "key" "sk-live" "s-9" "nonce-nonce-" 9
        (profile_of bob)
        stored).1).0
    ≡ ok (record { id = "s-9"; label = "key"; value = "sk-live"; created_at = some 9 })
unfolding vault
create_secret-reveal_secret_example =
    create_secret-reveal_secret model model-IsLawful "key" "sk-live" "s-9" "nonce-nonce-" 9
      (profile_of bob) (profile_of bob) stored
      {out = record { id = "s-9"; label = "key"; value = "sk-live"; created_at = none }} refl refl

delete_secret-owned_run :
    ((delete_secret "s-2" (profile_of alice) stored).0 ≡ http_error 404 "Secret introuvable." [])
    × ((reveal_secret model "s-2"
          (profile_of alice)
          (delete_secret "s-2" (profile_of alice) stored).1).0
        ≡ http_error 404 "Secret introuvable." [])
    × (rows_of_others "u-1" (delete_secret "s-2" (profile_of alice) stored).1.db
        ≡ rows_of_others "u-1" stored.db)
unfolding vault
delete_secret-owned_run = delete_secret-owned model "s-2" (profile_of alice) stored

mask-hides_run : mask ("sk" <> "-live-" <> "3f") ≡ mask ("sk" <> "x" <> "3f")
mask-hides_run = mask-hides "sk" "3f" "-live-" "x" refl refl (omega arith) (omega arith)
