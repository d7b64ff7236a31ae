-- ===== src/Database.antt =====
-- secure_app/database.py and secure_app/repository.py: the tables with their constraints, and the
-- parameterised statements of the repository. `none` is the `IntegrityError` of an `INSERT`.
-- A row's identifier, Python's `uuid.uuid4()`, and the second of its creation are arguments.
pub mod Ownership
pub mod Constraints
use mathlib.Core.Option
use honeypot_m1spro.Base.{
  fetch_one, update_where, delete_where, order_desc, ℕ, String, Bool, true, false, not, ◌&&◌, ◌||◌,
  Option, none, some, List, [], ◌∷◌, ◌++◌, map, ◌==◌, if◌then◌else◌, length, any, select,
}

-- The columns of `users` that the program reads; a `NULL` secret is `none`.
pub record User : Type 0 where
  pub id : String
  pub username : String
  pub email : String
  pub password_hash : String
  pub mfa_secret : Option String
  pub mfa_enabled : Bool

pub record Note : Type 0 where
  pub id : String
  pub owner_id : String
  pub title : String
  pub body : String
  pub created_at : ℕ

pub record Secret : Type 0 where
  pub id : String
  pub owner_id : String
  pub label : String
  pub value_enc : String
  pub created_at : ℕ

pub record Database : Type 0 where
  pub users : List User
  pub notes : List Note
  pub secrets : List Secret

abbrev pub empty_database : Database
empty_database = record { users = []; notes = []; secrets = [] }

-- The `UNIQUE` columns of `users`: a row that would violate one of them exists.
abbrev pub user_conflict : String → String → String → User → Bool
user_conflict id username email u = u.id == id || u.username == username || u.email == email

-- `FOREIGN KEY (owner_id) REFERENCES users(id)`, which `connect` switches on.
abbrev pub has_user : Database → String → Bool
has_user db id = any (λ u. u.id == id) db.users

-- Users.
unfoldable pub create_user : Database → (id username email password_hash : String) → Option Database
create_user db id username email password_hash =
    if any (user_conflict id username email) db.users
    then none
    else some (record db {
      users =
          db.users
          ++ record {
            id = id;
            username = username;
            email = email;
            password_hash = password_hash;
            mfa_secret = none;
            mfa_enabled = false;
          }
            ∷ [];
    })

unfoldable pub get_user_by_username : Database → String → Option User
get_user_by_username db username = fetch_one (λ u. u.username == username) db.users

-- The columns that `get_user_by_id` selects.
pub record Profile : Type 0 where
  pub id : String
  pub username : String
  pub email : String
  pub mfa_enabled : Bool

abbrev pub profile_of : User → Profile
profile_of u = record {
  id = u.id;
  username = u.username;
  email = u.email;
  mfa_enabled = u.mfa_enabled;
}

unfoldable pub get_user_by_id : Database → String → Option Profile
get_user_by_id db user_id = Option.map profile_of (fetch_one (λ u. u.id == user_id) db.users)

unfoldable pub username_or_email_exists : Database → String → String → Bool
username_or_email_exists db username email =
    any (λ u. u.username == username || u.email == email) db.users

unfoldable pub update_user : String → (User → User) → Database → Database
update_user user_id f db = record db { users = update_where (λ u. u.id == user_id) f db.users }

unfoldable pub set_mfa_secret : Database → String → String → Database
unfolding update_user
set_mfa_secret db user_id secret =
    update_user user_id (λ u. record u { mfa_secret = some secret }) db

unfoldable pub enable_mfa : Database → String → Database
unfolding update_user
enable_mfa db user_id = update_user user_id (λ u. record u { mfa_enabled = true }) db

unfoldable pub update_password_hash : Database → String → String → Database
unfolding update_user
update_password_hash db user_id password_hash =
    update_user user_id (λ u. record u { password_hash = password_hash }) db

unfoldable pub count_users : Database → ℕ
count_users db = length db.users

-- `INSERT OR IGNORE`.
unfoldable pub create_user_with_id :
    Database → (user_id username email password_hash : String) → Database
create_user_with_id db user_id username email password_hash =
    elim (create_user db user_id username email password_hash) [ none ↦ db | some db' ↦ db' ]

-- Notes.
unfoldable pub create_note :
    Database → (id owner_id title body : String) → ℕ → Option (Note × Database)
create_note db id owner_id title body now =
    let note : Note = record {
      id = id;
      owner_id = owner_id;
      title = title;
      body = body;
      created_at = now;
    } in
    if any (λ n. n.id == id) db.notes || not (has_user db owner_id)
    then none
    else some (note, record db { notes = db.notes ++ note ∷ [] })

abbrev pub is_note : String → String → Note → Bool
is_note note_id owner_id n = n.id == note_id && n.owner_id == owner_id

unfoldable pub get_note_for_owner : Database → String → String → Option Note
get_note_for_owner db note_id owner_id = fetch_one (is_note note_id owner_id) db.notes

unfoldable pub list_notes_for_owner : Database → String → List Note
list_notes_for_owner db owner_id =
    order_desc (λ n. n.created_at) (select (λ n. n.owner_id == owner_id) db.notes)

unfoldable pub delete_note_for_owner : Database → String → String → Bool × Database
delete_note_for_owner db note_id owner_id =
    let (found, rows) = delete_where (is_note note_id owner_id) db.notes in
    (found, record db { notes = rows })

-- Secrets: the repository sees ciphertext alone.
unfoldable pub create_secret :
    Database → (id owner_id label value_enc : String) → ℕ → Option (Secret × Database)
create_secret db id owner_id label value_enc now =
    let secret : Secret = record {
      id = id;
      owner_id = owner_id;
      label = label;
      value_enc = value_enc;
      created_at = now;
    } in
    if any (λ s. s.id == id) db.secrets || not (has_user db owner_id)
    then none
    else some (secret, record db { secrets = db.secrets ++ secret ∷ [] })

abbrev pub is_secret : String → String → Secret → Bool
is_secret secret_id owner_id s = s.id == secret_id && s.owner_id == owner_id

unfoldable pub get_secret_for_owner : Database → String → String → Option Secret
get_secret_for_owner db secret_id owner_id = fetch_one (is_secret secret_id owner_id) db.secrets

unfoldable pub list_secrets_for_owner : Database → String → List Secret
list_secrets_for_owner db owner_id =
    order_desc (λ s. s.created_at) (select (λ s. s.owner_id == owner_id) db.secrets)

unfoldable pub delete_secret_for_owner : Database → String → String → Bool × Database
delete_secret_for_owner db secret_id owner_id =
    let (found, rows) = delete_where (is_secret secret_id owner_id) db.secrets in
    (found, record db { secrets = rows })
