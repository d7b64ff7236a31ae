-- ===== src/Vault.antt =====
-- secure_app/routers/notes.py, secure_app/routers/secrets.py and secure_app/routers/users.py: the
-- resources of an authenticated user. A handler runs under `with_user`; the identifiers and nonces
-- that it draws and the second of the insertion are arguments, and a creation date is a second.
pub mod Access
pub mod Secrets
pub mod Preview
pub mod Tests
use mathlib.Core.Option
use honeypot_m1spro.Base.{
  ℕ, zero, suc, ◌-◌, String, Bool, not, Option, none, some, List, [], map, leb, if◌then◌else◌, ◌<>◌,
  size, skip, keep,
}
use honeypot_m1spro.Http.{Response, ok, http_error, uncaught}
use honeypot_m1spro.Database.{
  create_note, get_note_for_owner, list_notes_for_owner, delete_note_for_owner, create_secret,
  get_secret_for_owner, list_secrets_for_owner, delete_secret_for_owner, Note, Secret, Profile,
}
use honeypot_m1spro.Security.{Services}
use honeypot_m1spro.Security.Cipher.{encrypt, decrypt}
use honeypot_m1spro.Auth.{Handler}

pub record UserOut : Type 0 where
  pub id : String
  pub username : String
  pub email : String
  pub mfa_enabled : Bool

-- `/users/me`.
unfoldable pub me : Profile → Handler UserOut
me user app = (
  ok (record {
    id = user.id;
    username = user.username;
    email = user.email;
    mfa_enabled = user.mfa_enabled;
  }),
  app,
)

-- `NoteOut(**note)` drops the creation date.
pub record NoteOut : Type 0 where
  pub id : String
  pub owner_id : String
  pub title : String
  pub body : String

abbrev pub note_out : Note → NoteOut
note_out n = record { id = n.id; owner_id = n.owner_id; title = n.title; body = n.body }

abbrev note_not_found {ℓ} : {A : Type ℓ} → Response A
note_not_found = http_error 404 "Note introuvable." []

unfoldable pub create_note_route :
    (title body : String) → (note_id : String) → ℕ → Profile → Handler NoteOut
create_note_route title body note_id now user app =
    elim (create_note app.db note_id user.id title body now) [
      | none ↦ (uncaught, app)
      | some (note, db) ↦ (ok (note_out note), record app { db = db })
    ]

unfoldable pub list_notes : Profile → Handler (List NoteOut)
list_notes user app = (ok (map note_out (list_notes_for_owner app.db user.id)), app)

unfoldable pub get_note : String → Profile → Handler NoteOut
get_note note_id user app = elim (get_note_for_owner app.db note_id user.id) [
  | none ↦ (note_not_found, app)
  | some note ↦ (ok (note_out note), app)
]

unfoldable pub delete_note : String → Profile → Handler String
delete_note note_id user app =
    let (found, db) = delete_note_for_owner app.db note_id user.id in
    if not found
    then (note_not_found, record app { db = db })
    else (ok "Note supprimée.", record app { db = db })

-- The secrets. `created_at` is `none` for the `""` that the creation answers.
pub record SecretOut : Type 0 where
  pub id : String
  pub label : String
  pub value : String
  pub created_at : Option ℕ

pub record SecretListItem : Type 0 where
  pub id : String
  pub label : String
  pub preview : String
  pub created_at : ℕ

abbrev secret_not_found {ℓ} : {A : Type ℓ} → Response A
secret_not_found = http_error 404 "Secret introuvable." []

-- `"•" * n`.
abbrev pub bullets : ℕ → String
bullets zero = ""
bullets (suc n) = "•" <> bullets n

-- `_mask`.
unfoldable pub mask : String → String
mask value =
    if leb (size value) 4
    then bullets (size value)
    else keep 2 value <> bullets 6 <> skip (size value - 2) value

unfoldable pub preview : Option String → String
unfolding mask
preview none = "••••••"
preview (some value) = mask value

module _ (s : Services) where
  unfoldable pub create_secret_route :
      (label value : String) → (secret_id nonce : String) → ℕ → Profile → Handler SecretOut
  create_secret_route label value secret_id nonce now user app =
      elim (create_secret app.db secret_id user.id label (encrypt s nonce value) now) [
        | none ↦ (uncaught, app)
        | some (rec, db) ↦ (
          ok (record { id = rec.id; label = label; value = value; created_at = none }),
          record app { db = db },
        )
      ]

  abbrev pub secret_item : Secret → SecretListItem
  secret_item row = record {
    id = row.id;
    label = row.label;
    preview = preview (decrypt s row.value_enc);
    created_at = row.created_at;
  }

  unfoldable pub list_secrets : Profile → Handler (List SecretListItem)
  list_secrets user app = (ok (map secret_item (list_secrets_for_owner app.db user.id)), app)

  unfoldable pub reveal_secret : String → Profile → Handler SecretOut
  reveal_secret secret_id user app = elim (get_secret_for_owner app.db secret_id user.id) [
    | none ↦ (secret_not_found, app)
    | some row ↦ elim (decrypt s row.value_enc) [
      | none ↦ (http_error 500 "Erreur interne." [], app)
      | some value ↦ (
        ok (record {
          id = row.id;
          label = row.label;
          value = value;
          created_at = some row.created_at;
        }),
        app,
      )
    ]
  ]

unfoldable pub delete_secret : String → Profile → Handler String
delete_secret secret_id user app =
    let (found, db) = delete_secret_for_owner app.db secret_id user.id in
    if not found
    then (secret_not_found, record app { db = db })
    else (ok "Secret supprimé.", record app { db = db })
