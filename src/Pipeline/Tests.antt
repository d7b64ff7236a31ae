-- ===== src/Pipeline/Tests.antt =====
-- The log files of concrete events, with a printer that shows no more than the identifier.
use honeypot_m1spro.Base.{
  ◌≤◌, String, ◌≡◌, refl, ◌↔◌, true, Option, none, some, List, [], ◌∷◌, ◌==◌, if◌then◌else◌, length,
  all, ◌<>◌, size,
}
use honeypot_m1spro.Events.{conforms, Event}
use honeypot_m1spro.Analyzer.Shipper.{read_line, read_lines, ship_line, ship_lines, poll_file, Sent}
use honeypot_m1spro.Pipeline.{write, write_all, count_line, count_lines, exit_code}
use honeypot_m1spro.Pipeline.Written.{IsPrinted}
use honeypot_m1spro.Pipeline.Shipped.{flatten, write_poll, with_events, write_poll_exact}
use honeypot_m1spro.Pipeline.Capture.{exit_code-written_iff}

abbrev event_named : String → String → Event
event_named event_id service = record {
  version = "1.0.0";
  event_id = event_id;
  timestamp = 7;
  fields = record {
    service = service;
    src_ip = "203.0.113.10";
    src_port = 56775;
    session_id = "s";
    event_type = "connect";
    dst_port = some 22;
    username = none;
    password = none;
    command = none;
    http = none;
    raw = none;
  };
}

abbrev first_event : Event
first_event = event_named "1" "ssh"

abbrev second_event : Event
second_event = event_named "2" "ssh"

-- A service that the schema does not know.
abbrev odd_event : Event
odd_event = event_named "3" "smtp"

abbrev dumps : Event → String
dumps e = "{" <> e.event_id <> "}"

abbrev loads : String → Option Event
loads s =
    if s == "{1}"
    then some first_event
    else if s == "{2}"
    then some second_event
    else if s == "{3}"
    then some odd_event
    else none

abbrev first_printed : IsPrinted dumps loads first_event
first_printed = ("1", refl, refl, refl)

abbrev second_printed : IsPrinted dumps loads second_event
second_printed = ("2", refl, refl, refl)

abbrev nothing_sent : Sent Event
nothing_sent = record { unified = []; posts = [] }

abbrev sessions : List (List Event)
sessions = (first_event ∷ second_event ∷ []) ∷ [] ∷ (first_event ∷ []) ∷ []

write_poll_exact_example : write_poll dumps loads "{0}\n" sessions (size "{0}\n", nothing_sent) ≡ (
  size (write_all dumps (flatten sessions) "{0}\n"),
  with_events dumps loads (flatten sessions) nothing_sent,
)
write_poll_exact_example =
    write_poll_exact dumps loads "{0}\n" sessions nothing_sent
      ((first_printed, (second_printed, tt)), (tt, ((first_printed, tt), tt)))

write_poll_run :
    (write_poll dumps loads "" sessions (0, nothing_sent)).1.unified ≡ "{1}" ∷ "{2}" ∷ "{1}" ∷ []
unfolding write_all write poll_file read_lines read_line ship_lines ship_line
write_poll_run = refl

exit_code-written_iff_example :
    (exit_code loads conforms 2 (some (write_all dumps (first_event ∷ second_event ∷ []) "")) ≡ 0)
    ↔ ((2 ≤ length (first_event ∷ second_event ∷ []))
        × (all conforms (first_event ∷ second_event ∷ []) ≡ true))
exit_code-written_iff_example =
    exit_code-written_iff dumps loads conforms 2 (first_event ∷ second_event ∷ [])
      (first_printed, (second_printed, tt))

-- An event that does not conform fails the check, and so do a line that is no JSON, too few events and
-- a missing file; a blank line does not count.
exit_code_run :
    (exit_code loads conforms 1 (some (write_all dumps (first_event ∷ odd_event ∷ []) "")) ≡ 1)
    × (exit_code loads conforms 1 (some "{1}\n{1\n") ≡ 1)
    × (exit_code loads conforms 3 (some "{1}\n\n{2}\n") ≡ 1)
    × (exit_code loads conforms 2 (some "{1}\n\n{2}\n") ≡ 0)
    × (exit_code loads conforms 0 none ≡ 1)
unfolding write_all write exit_code count_lines count_line read_lines read_line conforms
exit_code_run = (refl, refl, refl, refl, refl)
