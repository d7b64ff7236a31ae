-- ===== src/Events.antt =====
-- honeypots/common/events.py and schemas/event.schema.json: the events that every honeypot emits.
-- Identifiers and times, which the code draws, are arguments; a time is a number of microseconds.
pub mod Contract
pub mod Tests
use honeypot_m1spro.Base.{
  ℕ, String, Bool, true, ◌&&◌, Option, none, some, List, [], ◌∷◌, ◌==◌, ltb, leb, if◌then◌else◌,
  any, ◌<>◌, size, keep,
}

abbrev pub schema_version : String
schema_version = "1.0.0"

abbrev pub raw_max_len : ℕ
raw_max_len = 4096

-- The `http` object of an event.
pub record HttpPart : Type 0 where
  pub method : String
  pub path : String
  pub query : Option String
  pub headers : List (String × String)
  pub body : Option String
  pub user_agent : Option String

-- What the caller of `build_event` says.
pub record Fields : Type 0 where
  pub service : String
  pub src_ip : String
  pub src_port : ℕ
  pub session_id : String
  pub event_type : String
  pub dst_port : Option ℕ
  pub username : Option String
  pub password : Option String
  pub command : Option String
  pub http : Option HttpPart
  pub raw : Option String

-- An event; a key that is absent is `none`.
pub record Event : Type 0 where
  pub version : String
  pub event_id : String
  pub timestamp : ℕ
  pub fields : Fields

-- `_truncate`.
unfoldable pub truncate : Option String → Option String
truncate none = none
truncate (some value) =
    if ltb raw_max_len (size value)
    then some (keep raw_max_len value <> "...[truncated]")
    else some value

abbrev pub services : List String
services = "ssh" ∷ "http" ∷ "ftp" ∷ "telnet" ∷ []

abbrev pub event_types : List String
event_types =
    "connect" ∷ "auth_attempt" ∷ "auth_success" ∷ "command" ∷ "http_request" ∷ "ftp_command"
    ∷ "file_access" ∷ "disconnect" ∷ []

abbrev is_port : ℕ → Bool
is_port n = leb n 65535

abbrev pub is_port_or_absent : Option ℕ → Bool
is_port_or_absent none = true
is_port_or_absent (some n) = is_port n

-- What the JSON schema asks beyond the types of the fields.
unfoldable pub conforms : Event → Bool
conforms e =
    e.version == schema_version
    && any (λ s. s == e.fields.service) services
    && is_port e.fields.src_port
    && is_port_or_absent e.fields.dst_port
    && any (λ t. t == e.fields.event_type) event_types

-- `validate_event`: false stands for a `ValidationError`.
validate_event : Event → Bool
validate_event e = conforms e

-- `build_event`; `none` is the `ValidationError`.
unfoldable pub build_event : String → ℕ → Fields → Option Event
build_event event_id now fields =
    let event : Event = record {
      version = schema_version;
      event_id = event_id;
      timestamp = now;
      fields = record fields { command = truncate fields.command; raw = truncate fields.raw };
    } in
    if conforms event then some event else none
