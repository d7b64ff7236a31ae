-- ===== src/Honeypots/Http.antt =====
-- honeypots/http/server.py: the routes of the HTTP honeypot, what they answer and what they log.
use honeypot_m1spro.Base.{
  Dict, lookup, ℕ, String, Bool, ◌||◌, Option, none, some, List, [], ◌∷◌, ◌==◌, if◌then◌else◌, any,
}
use honeypot_m1spro.Events.{build_event, Fields, Event}

-- A request, its header names in lower case and its body decoded. The routes compare `path`; `url` is the
-- path and the query of `request.url`, which the framework puts together from the Host header and the
-- path and parses again: it is cut at a question mark that was escaped, and `none` is the `ValueError` of a
-- malformed host.
pub record HttpRequest : Type 0 where
  pub client : Option (String × ℕ)
  pub method : String
  pub path : String
  pub url : Option (String × String)
  pub headers : Dict String
  pub body : String

pub record HttpAnswer : Type 0 where
  pub status : ℕ
  pub content : String

-- `text or None`.
abbrev pub or_none : String → Option String
or_none s = if s == "" then none else some s

abbrev pub host_of : Option (String × ℕ) → String
host_of none = "0.0.0.0"
host_of (some (host, _)) = host

abbrev pub port_of : Option (String × ℕ) → ℕ
port_of none = 0
port_of (some (_, port)) = port

-- The arguments of `build_event` in `_log`.
unfoldable pub log_fields :
    ℕ → HttpRequest → (path query : String) → (session_id event_type : String) → Fields
unfolding lookup
log_fields listen_port r path query session_id event_type = record {
  service = "http";
  src_ip = host_of r.client;
  src_port = port_of r.client;
  session_id = session_id;
  event_type = event_type;
  dst_port = some listen_port;
  username = none;
  password = none;
  command = none;
  http = some (record {
    method = r.method;
    path = path;
    query = or_none query;
    headers = r.headers;
    body = or_none r.body;
    user_agent = lookup "user-agent" r.headers;
  });
  raw = or_none r.body;
}

abbrev login_page : String
login_page =
    "<html><head><title>Log In</title></head><body><form method='post'><input name='log'><input name='pwd' type='password'><input type='submit' value='Log In'></form></body></html>"

abbrev pub env_file : String
env_file =
    "APP_ENV=production\nAPP_KEY=base64:Zm9vYmFy\nDB_CONNECTION=mysql\nDB_HOST=127.0.0.1\nDB_DATABASE=app\nDB_USERNAME=app\nDB_PASSWORD=S3cr3t_db_pass\n"

abbrev git_config : String
git_config =
    "[core]\n\trepositoryformatversion = 0\n\tbare = false\n[remote \"origin\"]\n\turl = git@github.com:acme/internal-app.git\n"

abbrev phpinfo : String
phpinfo =
    "<h1>PHP Version 8.1.2</h1><table><tr><td>System</td><td>Linux srv-web-01 6.1.0-18-amd64</td></tr></table>"

abbrev pub is_login_path : String → Bool
is_login_path path = path == "/admin" || path == "/wp-login.php"

abbrev pub page : ℕ → String → HttpAnswer
page status content = record { status = status; content = content }

-- The routes of GET alone, in the order of the file: the type of the event and the answer.
unfoldable pub get_route : String → Option (String × HttpAnswer)
get_route path =
    if is_login_path path
    then some ("http_request", page 200 login_page)
    else if path == "/.env"
    then some ("file_access", page 200 env_file)
    else if path == "/.git/config"
    then some ("file_access", page 200 git_config)
    else if path == "/phpinfo.php"
    then some ("file_access", page 200 phpinfo)
    else if path == "/api/v1/users"
    then some ("http_request", page 401 "{\"error\":\"unauthorized\"}")
    else none

unfoldable pub post_route : String → Option (String × HttpAnswer)
post_route path =
    if is_login_path path
    then some
        ("auth_attempt", page 200 "<html><body>ERROR: Invalid username or password.</body></html>")
    else none

abbrev catch_all : String × HttpAnswer
catch_all = ("http_request", page 404 "Not Found")

abbrev pub or_else : Option (String × HttpAnswer) → String × HttpAnswer
or_else none = catch_all
or_else (some answer) = answer

abbrev pub catch_all_methods : List String
catch_all_methods = "GET" ∷ "POST" ∷ "PUT" ∷ "DELETE" ∷ "HEAD" ∷ []

-- The handler of a request; `none` is the framework's 405, which no handler logs.
unfoldable pub route : HttpRequest → Option (String × HttpAnswer)
unfolding get_route post_route
route r =
    if r.method == "GET"
    then some (or_else (get_route r.path))
    else if r.method == "POST"
    then some (or_else (post_route r.path))
    else if any (λ m. m == r.method) catch_all_methods
    then some catch_all
    else none

-- What comes of a request: the framework's 405, an exception, or an answer and the event that is written.
pub data Served : Type 0 where
  not_allowed crashed : Served
  served : Event → HttpAnswer → Served

abbrev written : Option Event → HttpAnswer → Served
written none answer = crashed
written (some event) answer = served event answer

-- `_log`, and the answer behind it.
unfoldable pub log :
    ℕ
    → (session_id event_id : String) → ℕ
    → HttpRequest
    → Option (String × String)
    → String × HttpAnswer
    → Served
log listen_port session_id event_id now r none (event_type, answer) = crashed
log listen_port session_id event_id now r (some (path, query)) (event_type, answer) =
    written (build_event event_id now (log_fields listen_port r path query session_id event_type))
      answer

-- One request.
unfoldable pub serve_http : ℕ → (session_id event_id : String) → ℕ → HttpRequest → Served
serve_http listen_port session_id event_id now r = elim (route r) [
  | none ↦ not_allowed
  | some found ↦ log listen_port session_id event_id now r r.url found
]
