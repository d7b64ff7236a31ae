-- ===== src/Telemetry.antt =====
-- secure_app/app_telemetry.py and vuln_app/app_telemetry.py: one row for each request, where a database is
-- configured. Whether the database and the pool of threads answer is an argument.
pub mod Transparent
pub mod Tests
use honeypot_m1spro.Base.{
  split_on, ℕ, String, Bool, true, false, not, ◌&&◌, Option, none, some, List, [], ◌∷◌, ◌++◌, ◌==◌,
  leb, if◌then◌else◌, starts_with,
}
use honeypot_m1spro.Shell.Paths.{strip}

-- `_DSN` and `_APP`.
pub record Metrics : Type 0 where
  pub dsn : String
  pub app : String

-- The two names of the environment.
unfoldable pub metrics_of : String → String → Metrics
metrics_of dsn name = record {
  dsn = strip dsn;
  app = if strip name == "" then "app" else strip name;
}

abbrev pub enabled : Metrics → Bool
enabled m = not (m.dsn == "")

-- `_classify`, by the first prefix that fits.
abbrev first_prefix : List (String × String) → String → Option String
first_prefix [] path = none
first_prefix ((prefix, kind) ∷ rest) path =
    let later = first_prefix rest path in if starts_with path prefix then some kind else later

abbrev attack_types : List (String × String)
attack_types =
    ("/auth/login", "login (SQLi / brute-force)")
    ∷ ("/auth/register", "register")
    ∷ ("/auth/refresh", "token refresh")
    ∷ ("/tools/ping", "command injection")
    ∷ ("/users/me", "secret exposure (JWT)")
    ∷ ("/notes", "BOLA / IDOR")
    ∷ []

unfoldable pub classify : String → Option String
classify path = first_prefix attack_types path

-- A row of `app_requests`; the latency, a number with a fraction, is left out.
pub record RequestRow : Type 0 where
  pub app : String
  pub client_ip : Option String
  pub method : String
  pub path : String
  pub status_code : ℕ
  pub attack_type : Option String
  pub blocked : Bool

-- The connection, and the table on the other side.
pub record Sink : Type 0 where
  pub connected : Bool
  pub rows : List RequestRow

-- What the outside does: the pool takes the task, the connection still lives, a new one is made, and the
-- insertion succeeds.
pub record Weather : Type 0 where
  pub submits : Bool
  pub alive : Bool
  pub connects : Bool
  pub inserts : Bool

-- `_get_conn`: whether there is a connection.
abbrev pub get_conn : Weather → Sink → Bool
get_conn w s = if s.connected && w.alive then true else w.connects

-- `_do_insert`: an exception drops the connection, and nothing else.
unfoldable pub do_insert : Weather → RequestRow → Sink → Sink
do_insert w row s =
    if get_conn w s && w.inserts
    then record { connected = true; rows = s.rows ++ row ∷ [] }
    else record { connected = false; rows = s.rows }

-- What the middleware reads of a request.
pub record HttpCall : Type 0 where
  pub method : String
  pub path : String
  pub forwarded_for : String
  pub peer : Option String

-- `xff.split(",")[0]`.
abbrev first_part : List String → String
first_part [] = ""
first_part (s ∷ _) = s

-- The address that is recorded.
unfoldable pub client_ip_of : HttpCall → Option String
client_ip_of call =
    if call.forwarded_for == ""
    then call.peer
    else some (strip (first_part (split_on b',' call.forwarded_for)))

unfoldable pub row_for : Metrics → HttpCall → ℕ → RequestRow
row_for m call status = record {
  app = m.app;
  client_ip = client_ip_of call;
  method = call.method;
  path = call.path;
  status_code = status;
  attack_type = classify call.path;
  blocked = leb 400 status;
}

-- `record`.
unfoldable pub record_request : Metrics → Weather → HttpCall → ℕ → Sink → Sink
record_request m w call status s =
    if m.dsn == "" then s else if w.submits then do_insert w (row_for m call status) s else s

-- `request_telemetry`: the handler's answer, whose status is recorded; `none` is an exception that passes
-- through.
abbrev pub recorded : Metrics → Weather → HttpCall → Option ℕ → Sink → Sink
recorded m w call none s = s
recorded m w call (some status) s = if enabled m then record_request m w call status s else s

unfoldable pub request_telemetry :
    {A : Type 0} → (A → Option ℕ) → Metrics → Weather → HttpCall → A → Sink → A × Sink
request_telemetry status_of m w call response s =
    (response, recorded m w call (status_of response) s)
