-- ===== src/Events/Tests.antt =====
-- Events of concrete fields.
use honeypot_m1spro.Base.{◌≤◌, ◌≡◌, refl, ◌↔◌, true, none, some, is_some}
use honeypot_m1spro.Events.{truncate, conforms, build_event, Fields, Event}
use honeypot_m1spro.Events.Contract.{
  size_or_zero, IsAccepted, build_event_iff, build_event-conforms,
}

abbrev fields : Fields
fields = record {
  service = "ssh";
  src_ip = "203.0.113.10";
  src_port = 56775;
  session_id = "s";
  event_type = "command";
  dst_port = some 22;
  username = none;
  password = none;
  command = some "ls -la";
  http = none;
  raw = none;
}

build_event_iff_run : (is_some (build_event "e" 7 fields) ≡ true) ↔ IsAccepted fields
build_event_iff_run = build_event_iff "e" 7 fields

abbrev built : Event
built = record { version = "1.0.0"; event_id = "e"; timestamp = 7; fields = fields }

build_event-conforms_run :
    (conforms built ≡ true)
    × (built.fields
        ≡ record fields { command = truncate fields.command; raw = truncate fields.raw })
    × (size_or_zero built.fields.command ≤ 4110)
    × (size_or_zero built.fields.raw ≤ 4110)
unfolding build_event conforms truncate
build_event-conforms_run = build_event-conforms "e" 7 fields {e = built} refl
