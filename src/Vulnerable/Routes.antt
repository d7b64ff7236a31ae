-- ===== src/Vulnerable/Routes.antt =====
-- vuln_app/main.py: the routes.
use honeypot_m1spro.Base.{
  fetch_one, delete_where, ℕ, String, Bool, Option, none, some, List, [], map, ◌==◌, eqb,
  if◌then◌else◌, select, ◌<>◌,
}
use honeypot_m1spro.Http.{Response, ok, http_error, uncaught}
use honeypot_m1spro.Vulnerable.{insert_row, VulnUser, VulnNote, VulnSecret, VulnDb}
use honeypot_m1spro.Vulnerable.Token.{
  issue_token, decode_unverified, require_user, Payload, object, null_value, other, Codec,
}

abbrev pub user_id : VulnUser → String
user_id u = u.id

abbrev pub note_id : VulnNote → String
note_id n = n.id

abbrev pub secret_id : VulnSecret → String
secret_id s = s.id

-- A statement's result, or the exception.
abbrev or_uncaught :
    {A B : Type 0} → Option A → (A → Response B × VulnDb) → VulnDb → Response B × VulnDb
or_uncaught none f db = (uncaught, db)
or_uncaught (some a) f db = f a

-- `register`.
unfoldable pub register : String → String → String → String → VulnDb → Response String × VulnDb
register drawn username email password db =
    or_uncaught
      (insert_row user_id
        (record { id = drawn; username = username; email = email; password = password }) db.users)
      (λ users. (ok "Compte créé.", record db { users = users })) db

-- The text of the query of `login`.
unfoldable pub login_query : String → String → String
login_query username password =
    "SELECT id, username FROM users WHERE username = '" <> username <> "' AND password = '"
    <> password <> "'"

-- The tokens of an answer.
pub record Tokens : Type 0 where
  pub access_token : String
  pub refresh_token : String

-- What SQLite does with the text of a query on the users: the first row, or an error.
pub record SqlEngine : Type 0 where
  pub select_user : String → List VulnUser → Option (Option VulnUser)

abbrev pub answer_login : Codec → Option (Option VulnUser) → Response Tokens
answer_login k none = uncaught
answer_login k (some none) = http_error 401 "Identifiants invalides." []
answer_login k (some (some row)) =
    let tok = issue_token k row.id in ok (record { access_token = tok; refresh_token = tok })

-- `login`, which reads only.
unfoldable pub login : Codec → SqlEngine → String → String → VulnDb → Response Tokens
login k sql username password db =
    answer_login k (sql.select_user (login_query username password) db.users)

-- `refresh`, on the `refresh_token` of the payload.
abbrev token_or_x : Option String → String
token_or_x none = "x"
token_or_x (some t) = t

unfoldable pub refresh : Option String → Tokens
refresh payload = record { access_token = token_or_x payload; refresh_token = token_or_x payload }

-- The answer of `users_me`: a row with its password, or what the token claims.
pub data Me : Type 0 where
  account : String → String → String → String → Me
  claimed : Option String → String → Me

abbrev username_or : Option String → String
username_or none = "?"
username_or (some u) = u

-- `WHERE id = ?`, where NULL selects nothing.
abbrev user_by_id : Option String → List VulnUser → Option VulnUser
user_by_id none users = none
user_by_id (some id) users = fetch_one (λ u. u.id == id) users

abbrev pub me_or_claims : Option String → Option String → Option VulnUser → Me
me_or_claims sub username none = claimed sub (username_or username)
me_or_claims sub username (some u) = account u.id u.username u.email u.password

abbrev pub me_of : VulnDb → Option Payload → Response Me
me_of db none = http_error 401 "Token manquant/illisible." []
me_of db (some (object sub username)) = ok (me_or_claims sub username (user_by_id sub db.users))
me_of db (some null_value) = http_error 401 "Token manquant/illisible." []
me_of db (some (other _)) = uncaught

-- `users_me`.
unfoldable pub users_me : Codec → Option String → VulnDb → Response Me
users_me k authorization db = me_of db (decode_unverified k authorization)

abbrev pub auth_required : {A : Type 0} → Response A
auth_required = http_error 401 "Auth requise." []

abbrev pub not_found : {A : Type 0} → Response A
not_found = http_error 404 "Introuvable." []

-- The guard of the routes below: without a user the answer is 401, and nothing is done.
unfoldable pub with_user :
    {A : Type 0}
    → Option (Option String)
    → (String → Response A × VulnDb)
    → VulnDb
    → Response A × VulnDb
with_user none f db = (uncaught, db)
with_user (some none) f db = (auth_required, db)
with_user (some (some uid)) f db = f uid

-- The identifier, the title and the body of a note.
abbrev pub note_item : VulnNote → String × String × String
note_item n = (n.id, n.title, n.body)

-- `create_note`.
unfoldable pub create_note :
    Codec
    → Option String
    → String
    → String
    → String
    → VulnDb
    → Response (String × String × String) × VulnDb
create_note k authorization drawn title body db =
    with_user (require_user k authorization)
      (λ uid.
        let note : VulnNote = record { id = drawn; owner_id = uid; title = title; body = body } in
        or_uncaught (insert_row note_id note db.notes)
          (λ notes. (ok (note_item note), record db { notes = notes })) db)
      db

-- `list_notes`.
unfoldable pub list_notes :
    Codec → Option String → VulnDb → Response (List (String × String × String)) × VulnDb
list_notes k authorization db =
    with_user (require_user k authorization)
      (λ uid. (ok (map note_item (select (λ n. n.owner_id == uid) db.notes)), db)) db

abbrev or_not_found : {A : Type 0} → Option A → Response A
or_not_found none = not_found
or_not_found (some a) = ok a

-- `get_note`.
unfoldable pub get_note : Codec → Option String → String → VulnDb → Response VulnNote × VulnDb
get_note k authorization id db =
    with_user (require_user k authorization)
      (λ uid. (or_not_found (fetch_one (λ n. n.id == id) db.notes), db)) db

-- `delete_note`.
unfoldable pub delete_note : Codec → Option String → String → VulnDb → Response String × VulnDb
delete_note k authorization id db =
    with_user (require_user k authorization)
      (λ uid.
        let removed = delete_where (λ n. n.id == id) db.notes in
        (if removed.0 then ok "Supprimée." else not_found, record db { notes = removed.1 }))
      db

-- What the shell leaves: the return code and the two outputs; `none` is the `TimeoutExpired`.
pub record Process : Type 0 where
  pub returncode : ℕ
  pub stdout : String
  pub stderr : String

pub record PingAnswer : Type 0 where
  pub host : String
  pub returncode : ℕ
  pub reachable : Bool
  pub output : String
  pub cmd : String

abbrev pub ping_command : String → String
ping_command host = "ping -c 1 " <> host

abbrev ping_answer : String → Option Process → Response PingAnswer
ping_answer host none = uncaught
ping_answer host (some p) = ok (record {
  host = host;
  returncode = p.returncode;
  reachable = eqb p.returncode 0;
  output = p.stdout <> p.stderr;
  cmd = ping_command host;
})

-- `ping`, over the shell.
unfoldable pub ping :
    Codec
    → (String → Option Process)
    → Option String
    → String
    → VulnDb
    → Response PingAnswer × VulnDb
ping k shell authorization host db =
    with_user (require_user k authorization)
      (λ uid. (ping_answer host (shell (ping_command host)), db)) db

-- `create_secret`: the answer repeats the value in clear.
unfoldable pub create_secret :
    Codec
    → Option String
    → String
    → String
    → String
    → String
    → VulnDb
    → Response (String × String × String) × VulnDb
create_secret k authorization drawn now label value db =
    with_user (require_user k authorization)
      (λ uid.
        let secret : VulnSecret = record {
          id = drawn;
          owner_id = uid;
          label = label;
          value = value;
          created_at = now;
        } in
        or_uncaught (insert_row secret_id secret db.secrets)
          (λ secrets. (ok (drawn, label, value), record db { secrets = secrets })) db)
      db

-- The identifier, the label, the value and the time of a secret.
abbrev pub secret_item : VulnSecret → String × String × String × String
secret_item s = (s.id, s.label, s.value, s.created_at)

-- `list_secrets`.
unfoldable pub list_secrets :
    Codec → Option String → VulnDb → Response (List (String × String × String × String)) × VulnDb
list_secrets k authorization db =
    with_user (require_user k authorization)
      (λ uid. (ok (map secret_item (select (λ s. s.owner_id == uid) db.secrets)), db)) db

-- `export_secrets`: every secret, with the name of its owner, if there is one.
abbrev name_of : Option VulnUser → Option String
name_of none = none
name_of (some u) = some u.username

unfoldable pub export_secrets : VulnDb → Response (List (VulnSecret × Option String))
export_secrets db =
    ok (map (λ s. (s, name_of (fetch_one (λ u. u.id == s.owner_id) db.users))) db.secrets)

-- `get_secret`.
unfoldable pub get_secret : Codec → Option String → String → VulnDb → Response VulnSecret × VulnDb
get_secret k authorization id db =
    with_user (require_user k authorization)
      (λ uid. (or_not_found (fetch_one (λ s. s.id == id) db.secrets), db)) db

-- `delete_secret`.
unfoldable pub delete_secret : Codec → Option String → String → VulnDb → Response String × VulnDb
delete_secret k authorization id db =
    with_user (require_user k authorization)
      (λ uid.
        let removed = delete_where (λ s. s.id == id) db.secrets in
        (if removed.0 then ok "Supprimé." else not_found, record db { secrets = removed.1 }))
      db

-- `leaky_handler`: the text of the traceback goes to the client.
pub record PlainText : Type 0 where
  pub status_code : ℕ
  pub content : String

abbrev leaky_handler : String → PlainText
leaky_handler traceback = record { status_code = 500; content = traceback }
