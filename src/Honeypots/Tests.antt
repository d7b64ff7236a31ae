-- ===== src/Honeypots/Tests.antt =====
-- Sessions of concrete clients.
use mathlib.Core.Option
use honeypot_m1spro.Honeypots.Http.{
  env_file, page, route, post_route, log, serve_http, crashed, HttpRequest,
}
use honeypot_m1spro.Base.{
  ℕ, String, ◌≡◌, refl, Bool, true, false, none, some, List, [], ◌∷◌, arith, is_some,
}
use honeypot_m1spro.Shell.Tests.{shell}
use honeypot_m1spro.Honeypots.{
  emit, readline, telnet_loop, telnet_try, telnet_handle, ssh_loop, handle_shell, Emission,
  ftp_calls, connect, disconnect, auth_attempt, auth_success, command, file_access, Peer, Read,
  line, reset, on_connect, ftp_user, ftp_pass, on_file_sent, on_login,
}
use honeypot_m1spro.Honeypots.Trace.{start, over, Run}
use honeypot_m1spro.Honeypots.Sessions.{telnet_handle-Run, emit-total}

abbrev reads : List Read
reads =
    line "root" false
    ∷ line "toor" false
    ∷ line "" false
    ∷ line "ls" false
    ∷ line "exit" false
    ∷ line "id" false
    ∷ []

telnet_events :
    telnet_handle reads
    ≡ connect
      ∷ auth_attempt (some "root") (some "toor")
      ∷ auth_success (some "root") none
      ∷ command ""
      ∷ command "ls"
      ∷ command "exit"
      ∷ disconnect
      ∷ []
unfolding shell telnet_handle telnet_try telnet_loop readline
telnet_events = refl

telnet_broken : telnet_handle (line "root" false ∷ reset ∷ []) ≡ connect ∷ disconnect ∷ []
unfolding telnet_handle telnet_try readline
telnet_broken = refl

-- An `echo` of the word that ends a session ends it.
echo_ends :
    handle_shell none ("echo __EXIT__" ∷ "id" ∷ [])
    ≡ auth_success none none ∷ command "echo __EXIT__" ∷ disconnect ∷ []
unfolding shell handle_shell ssh_loop
echo_ends = refl

-- The event of an FTP login carries the password that was sent.
ftp_events :
    ftp_calls
      (record { username = none; last_password = none })
      (on_connect
        ∷ ftp_user "root"
        ∷ ftp_pass "x"
        ∷ on_login "root"
        ∷ on_file_sent "/tmp/a.zip"
        ∷ [])
    ≡ connect
      ∷ auth_attempt (some "root") none
      ∷ auth_attempt (some "root") (some "x")
      ∷ auth_success (some "root") (some "x")
      ∷ file_access "RETR a.zip"
      ∷ []
unfolding shell ftp_calls
ftp_events = refl

telnet_handle-Run_example : Run start (telnet_handle reads) over
telnet_handle-Run_example = telnet_handle-Run reads

abbrev attempts : List ((String × String) × Bool)
attempts = (("root", "root"), false) ∷ (("root", "toor"), true) ∷ []

-- Two channels, the second of which starts before the first ends.
abbrev two_channels : List (List String)
two_channels = ("id" ∷ []) ∷ [] ∷ []

abbrev ssh_log : List Emission
ssh_log =
    connect
    ∷ auth_attempt (some "root") (some "root")
    ∷ auth_attempt (some "root") (some "toor")
    ∷ auth_success (some "root") none
    ∷ auth_success (some "root") none
    ∷ command "id"
    ∷ disconnect
    ∷ disconnect
    ∷ []

abbrev peer : Peer
peer = record { ip = "203.0.113.10"; port = 40000; session_id = "s" }

emit-total_run : is_some (emit "telnet" 2323 peer "e" 7 (command "id")) ≡ true
emit-total_run = emit-total "telnet" "e" 2323 7 peer (command "id") refl (omega arith) (omega arith)

abbrev draws : ℕ → String × ℕ
draws n = ("e", n)

abbrev three_lines : List String
three_lines = "id" ∷ "exit" ∷ "pwd" ∷ []

abbrev login_post : HttpRequest
login_post = record {
  client = some ("203.0.113.10", 40000);
  method = "POST";
  path = "/wp-login.php";
  url = some ("/wp-login.php", "");
  headers = ("user-agent", "hydra") ∷ [];
  body = "log=admin&pwd=x";
}

routes :
    (route login_post
      ≡ some (
        "auth_attempt",
        page 200 "<html><body>ERROR: Invalid username or password.</body></html>",
      ))
    × (route (record login_post { method = "GET"; path = "/.env" })
        ≡ some ("file_access", page 200 env_file))
    × (route (record login_post { method = "HEAD" }) ≡ some ("http_request", page 404 "Not Found"))
    × (route (record login_post { method = "OPTIONS" }) ≡ none)
unfolding route
routes = (refl, refl, refl, refl)

-- A malformed Host header: the decoy route raises, and nothing is logged.
malformed_host_run : serve_http 8080 "s" "e" 7 (record login_post { url = none }) ≡ crashed
unfolding serve_http route post_route log
malformed_host_run = refl
