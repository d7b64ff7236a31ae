-- ===== src/Honeypots/Logging.antt =====
-- What the event log keeps of a client's input.
use honeypot_m1spro.Base.{
  ltb, size, keep, ◌<>◌, ℕ, suc, none, if◌then◌else◌, String, ◌≡◌, Option, some, List, [], ◌∷◌,
  ◌==◌,
}
use honeypot_m1spro.Shell.{run, FakeShell}
use honeypot_m1spro.Honeypots.{Emission, command, type_of, command_of, emit, Peer}
use honeypot_m1spro.Events.{truncate, Event}

-- The replies that end a session.
abbrev IsExit : FakeShell → String → Type 0
IsExit sh text = (sh' : FakeShell) × (run sh text ≡ some ("__EXIT__", sh'))

-- The lines that a shell is left with: none, or those behind a line that ended the session.
pub data Leftover : FakeShell → List String → List String → Type 0 where
  used_up : (sh : FakeShell) → Leftover sh [] []
  exits :
      (sh : FakeShell) (text : String) (rest : List String)
      → IsExit sh text
      → Leftover sh (text ∷ rest) rest
  goes_on :
      (sh sh' : FakeShell) (text out : String) (lines rest : List String)
      → run sh text ≡ some (out, sh')
      → Leftover sh' lines rest
      → Leftover sh (text ∷ lines) rest

-- The log of the service: each emission with the identifier and the time that are drawn for it.
abbrev pub log_of : ℕ → Peer → (ℕ → String × ℕ) → ℕ → List Emission → List (Option Event)
log_of listen_port peer draws n [] = []
log_of listen_port peer draws n (e ∷ es) =
    emit "ssh" listen_port peer (draws n).0 (draws n).1 e ∷ log_of listen_port peer draws (suc n) es

-- The commands that a log holds.
abbrev command_in : Event → List (Option String) → List (Option String)
command_in event rest =
    if event.fields.event_type == "command" then event.fields.command ∷ rest else rest

abbrev pub logged_commands : List (Option Event) → List (Option String)
logged_commands [] = []
logged_commands (none ∷ events) = logged_commands events
logged_commands (some event ∷ events) = command_in event (logged_commands events)

-- What is logged of a line.
abbrev pub as_logged : String → Option String
as_logged c = if ltb 4096 (size c) then some (keep 4096 c <> "...[truncated]") else some c

-- What an emission leaves in the log.
abbrev logged : Emission → List (Option String) → List (Option String)
logged e rest = if type_of e == "command" then truncate (command_of e) ∷ rest else rest
