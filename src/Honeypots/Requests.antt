-- ===== src/Honeypots/Requests.antt =====
-- What the HTTP honeypot logs and answers.
use mathlib.Core.Option
use honeypot_m1spro.Base.{String, ◌≡◌, true, Option, none, some, ◌==◌, any}
use honeypot_m1spro.Events.{event_types, HttpPart}
use honeypot_m1spro.Honeypots.Http.{HttpAnswer}

-- An answer whose event has a type that the contract knows.
abbrev IsDecoy : Option (String × HttpAnswer) → Type 0
IsDecoy none = Unit
IsDecoy (some (t, a)) = any (λ k. k == t) event_types ≡ true

-- The method, the path and the body in an event.
abbrev pub request_of : HttpPart → String × String × Option String
request_of h = (h.method, h.path, h.body)
