-- ===== src/Events/Contract.antt =====
-- What an event that is built promises, and when it is built.
use mathlib.Core.Option.{some-injective}
use honeypot_m1spro.Base.{
  ℕ, zero, suc, ◌≤◌, String, ◌≡◌, refl, subst, ◌↔◌, inl, inr, true, Option, none, some, arith, ◌==◌,
  Bool-cases, is_some, any, size, size-append, keep,
}
use honeypot_m1spro.Events.{
  schema_version, raw_max_len, truncate, services, event_types, is_port_or_absent, conforms,
  build_event, Fields, Event,
}

size-keep : (n : ℕ) (s : String) → size (keep n s) ≤ n
size-keep zero s = omega arith
size-keep (suc n) String.[] = omega arith
size-keep (suc n) (String.◌∷◌ c s) = omega (arith, size-keep n s)

-- An absent text, or one of at most so many characters.
abbrev pub size_or_zero : Option String → ℕ
size_or_zero none = 0
size_or_zero (some s) = size s

size-truncate : (o : Option String) → size_or_zero (truncate o) ≤ 4110
unfolding truncate
size-truncate none = omega arith
size-truncate (some s) =
    ground (arith, size-append (keep raw_max_len s) "...[truncated]", size-keep raw_max_len s)

-- The fields that the contract accepts.
abbrev pub IsAccepted : Fields → Type 0
IsAccepted f =
    (any (λ s. s == f.service) services ≡ true)
    × (f.src_port ≤ 65535)
    × (is_port_or_absent f.dst_port ≡ true)
    × (any (λ t. t == f.event_type) event_types ≡ true)

-- An event is built exactly for the services, the event types and the ports of the contract.
pub build_event_iff :
    (event_id : String) (now : ℕ) (f : Fields)
    → (is_some (build_event event_id now f) ≡ true) ↔ IsAccepted f
unfolding build_event conforms
build_event_iff event_id now f = (λ built. ground arith, λ (service, src, dst, kind). ground arith)

-- An event that is built conforms to the schema, says what the caller said, and holds a command and
-- a raw text of at most 4110 characters.
pub build_event-conforms :
    (event_id : String) (now : ℕ) (f : Fields) {e : Event}
    → build_event event_id now f ≡ some e
    → (conforms e ≡ true)
      × (e.fields ≡ record f { command = truncate f.command; raw = truncate f.raw })
      × (size_or_zero e.fields.command ≤ 4110)
      × (size_or_zero e.fields.raw ≤ 4110)
unfolding build_event
build_event-conforms event_id now f {e} built =
    let event : Event = record {
      version = schema_version;
      event_id = event_id;
      timestamp = now;
      fields = record f { command = truncate f.command; raw = truncate f.raw };
    } in
    elim (Bool-cases (conforms event)) [
      | inr refused ↦ absurd (ground arith)
      | inl good ↦
          let same : event ≡ e = some-injective event e (rw good at built) in
          subst
            (λ x.
              (conforms x ≡ true)
              × (x.fields ≡ record f { command = truncate f.command; raw = truncate f.raw })
              × (size_or_zero x.fields.command ≤ 4110)
              × (size_or_zero x.fields.raw ≤ 4110))
            same (good, refl, size-truncate f.command, size-truncate f.raw)
    ]
