-- ===== src/Honeypots.antt =====
-- honeypots/telnet/server.py, honeypots/ssh/server.py and honeypots/ftp/server.py: the sessions of the
-- honeypots as the events that they emit, for what a client sends.
pub mod Trace
pub mod Sessions
pub mod Logging
pub mod Http
pub mod Requests
pub mod Tests
use honeypot_m1spro.Base.{
  ℕ, String, Bool, true, false, ◌&&◌, Option, none, some, List, [], ◌∷◌, ◌++◌, map, ◌==◌,
  if◌then◌else◌, ◌<>◌, has_char,
}
use honeypot_m1spro.Shell.Paths.{basename}
use honeypot_m1spro.Shell.{new_shell, run, FakeShell}
use honeypot_m1spro.Events.{build_event, Event}

-- The arguments that vary between the calls of `build_event` in one session.
pub data Emission : Type 0 where
  connect disconnect : Emission
  auth_attempt : Option String → Option String → Emission
  auth_success : Option String → Option String → Emission
  command file_access ftp_command : String → Emission

abbrev pub type_of : Emission → String
type_of connect = "connect"
type_of disconnect = "disconnect"
type_of (auth_attempt _ _) = "auth_attempt"
type_of (auth_success _ _) = "auth_success"
type_of (command _) = "command"
type_of (file_access _) = "file_access"
type_of (ftp_command _) = "ftp_command"

abbrev user_of : Emission → Option String
user_of (auth_attempt u _) = u
user_of (auth_success u _) = u
user_of _ = none

abbrev password_of : Emission → Option String
password_of (auth_attempt _ p) = p
password_of (auth_success _ p) = p
password_of _ = none

abbrev command_of : Emission → Option String
command_of (command c) = some c
command_of (file_access c) = some c
command_of (ftp_command c) = some c
command_of _ = none

-- The peer of a session.
pub record Peer : Type 0 where
  pub ip : String
  pub port : ℕ
  pub session_id : String

-- `emit`, for a service that listens on a port.
unfoldable pub emit : String → ℕ → Peer → String → ℕ → Emission → Option Event
emit service listen_port peer event_id now emission = build_event event_id now (record {
  service = service;
  src_ip = peer.ip;
  src_port = peer.port;
  session_id = peer.session_id;
  event_type = type_of emission;
  dst_port = some listen_port;
  username = user_of emission;
  password = password_of emission;
  command = command_of emission;
  http = none;
  raw = none;
})

-- What a read of the Telnet server meets: a line, without its end, with what `reader.at_eof()`
-- answers behind it, or a reset of the connection. The end of the list is the end of the stream.
pub data Read : Type 0 where
  line : String → Bool → Read
  reset : Read

-- `_readline`; `none` is `ConnectionResetError`.
unfoldable pub readline : List Read → Option (String × List Read)
readline [] = some ("", [])
readline (reset ∷ _) = none
readline (line text _ ∷ reads) = some (text, reads)

-- The loop of `handle`. An exception of the shell leaves it as a reset does.
unfoldable pub telnet_loop : FakeShell → List Read → List Emission
telnet_loop sh [] = []
telnet_loop sh (reset ∷ _) = []
telnet_loop sh (line text at_eof ∷ reads) = elim (text == "" && at_eof) [
  | true ↦ []
  | false ↦ command text ∷ elim (run sh text) [
    | none ↦ []
    | some (out, sh') ↦ elim (out == "__EXIT__") [ true ↦ [] | false ↦ telnet_loop sh' reads ]
  ]
]

-- The part of `handle` inside `try`.
unfoldable pub telnet_try : List Read → List Emission
telnet_try reads = elim (readline reads) [
  | none ↦ []
  | some (username, reads') ↦ elim (readline reads') [
    | none ↦ []
    | some (password, reads'') ↦
        auth_attempt (some username) (some password)
        ∷ auth_success (some username) none
        ∷ telnet_loop new_shell reads''
  ]
]

-- `handle`.
unfoldable pub telnet_handle : List Read → List Emission
telnet_handle reads = connect ∷ telnet_try reads ++ disconnect ∷ []

-- The lines of the standard input of an SSH process; `_handle_shell` ends at the end of the input, at
-- a break, and where the shell says so.
unfoldable pub ssh_loop : FakeShell → List String → List Emission
ssh_loop sh [] = []
ssh_loop sh (text ∷ lines) = command text ∷ elim (run sh text) [
  | none ↦ []
  | some (out, sh') ↦ elim (out == "__EXIT__") [ true ↦ [] | false ↦ ssh_loop sh' lines ]
]

unfoldable pub handle_shell : Option String → List String → List Emission
handle_shell username lines =
    auth_success username none ∷ ssh_loop new_shell lines ++ disconnect ∷ []

-- The attempts of a connection, each with the draw that `validate_password` makes of it, up to the
-- first that is accepted; and the user that it lets in.
unfoldable pub ssh_attempts : List ((String × String) × Bool) → List Emission × Option String
ssh_attempts [] = ([], none)
ssh_attempts (((username, password), accepted) ∷ attempts) =
    let rest = ssh_attempts attempts in
    let tried = auth_attempt (some username) (some password) in
    if accepted then (tried ∷ [], some username) else (tried ∷ rest.0, rest.1)

-- The events of the channels that a client opens: `process_handler` runs once for each, if the client
-- was let in.
unfoldable pub ssh_channels : Option String → List (List String) → List (List Emission)
ssh_channels none channels = []
ssh_channels (some username) channels = map (handle_shell (some username)) channels

-- The tasks of some channels run interleaved.
pub data Shuffle : List Emission → List Emission → List Emission → Type 0 where
  done : Shuffle [] [] []
  left : {e : Emission} {xs ys zs : List Emission} → Shuffle xs ys zs → Shuffle (e ∷ xs) ys (e ∷ zs)
  right :
      {e : Emission} {xs ys zs : List Emission} → Shuffle xs ys zs → Shuffle xs (e ∷ ys) (e ∷ zs)

pub data Interleaved : List (List Emission) → List Emission → Type 0 where
  idle : Interleaved [] []
  with_task :
      {xs ys zs : List Emission} {xss : List (List Emission)}
      → Interleaved xss ys
      → Shuffle xs ys zs
      → Interleaved (xs ∷ xss) zs

-- What a connection emits, for its attempts and the lines of its channels.
pub data SshSession
    : List ((String × String) × Bool) → List (List String) → List Emission → Type 0 where
  session :
      {attempts : List ((String × String) × Bool)} {channels : List (List String)}
      {es : List Emission}
      → Interleaved (ssh_channels (ssh_attempts attempts).1 channels) es
      → SshSession attempts channels (connect ∷ (ssh_attempts attempts).0 ++ es)

-- The handler of an FTP connection; `username` is the attribute that pyftpdlib keeps.
pub record FtpHandler : Type 0 where
  pub username : Option String
  pub last_password : Option String

-- The calls that pyftpdlib makes of the handler.
pub data FtpCall : Type 0 where
  on_connect : FtpCall
  ftp_user ftp_pass ftp_list on_file_sent on_login : String → FtpCall

-- What a call emits, and what it leaves in the handler; `ftp_USER` of the parent class keeps the name.
ftp_call : FtpHandler → FtpCall → Emission × FtpHandler
ftp_call h on_connect = (connect, h)
ftp_call h (on_login username) = (auth_success (some username) h.last_password, h)
ftp_call h (on_file_sent file) = (file_access ("RETR " <> basename file), h)
ftp_call h (ftp_user text) = (auth_attempt (some text) none, record h { username = some text })
ftp_call h (ftp_pass text) =
    (auth_attempt h.username (some text), record h { last_password = some text })
ftp_call h (ftp_list path) = (ftp_command ("LIST " <> path), h)

unfoldable pub ftp_calls : FtpHandler → List FtpCall → List Emission
unfolding ftp_call
ftp_calls h [] = []
ftp_calls h (c ∷ calls) = let (emission, h') = ftp_call h c in emission ∷ ftp_calls h' calls

-- The permissions of `PermissiveAuthorizer`.
has_perm : ℕ → Bool
has_perm perm = has_char perm "elr"
