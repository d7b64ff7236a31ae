-- ===== src/Analyzer/Tests.antt =====
-- The analyzer on concrete events, files and answers of the API.
use honeypot_m1spro.Base.{
  eqb, update_where, insert_desc, order_desc, Dict, lookup, insert, ℕ, ◌+◌, String, ◌≡◌, refl, ◌≢◌,
  true, false, not, ◌&&◌, ◌||◌, Option, none, some, List, [], ◌∷◌, map, arith, ◌==◌, if◌then◌else◌,
  length, any, All, ◌<>◌, size, starts_with,
}
use honeypot_m1spro.Classifier.{
  insert_time, sort_times, intervals, last_time, span, sum, unique, texts, is_connect_close,
  features, match_scanner, match_bruteforcer, match_bot, match_humain, matches_profile, first_match,
  classify_session, Label, bruteforcer, humain,
}
use honeypot_m1spro.Events.{conforms, Fields, Event}
use honeypot_m1spro.Exports.{is_critical}
use honeypot_m1spro.Analyzer.{columns_of, row_of, null, text, real, Row}
use honeypot_m1spro.Analyzer.Enrichers.{
  located, geo_lookup, no_abuse, cached, call_time, ask, abuse_lookup, update, not_null, live,
  enrich, GeoRecord, Outside,
}
use honeypot_m1spro.Analyzer.Throttle.{calls, Spaced, calls-Spaced, abuse_lookup_once}
use honeypot_m1spro.Analyzer.Merge.{or_other, known, enrich-lookup}
use honeypot_m1spro.Analyzer.Store.{
  insert_event, insert_new, insert_asc, order_asc, session_events, reclassify, new_analyzer, accept,
  ingest, ingest_all, list_events, Incoming,
}
use honeypot_m1spro.Analyzer.Ingest.{id_of, nil-IsConsistent, ingest_all-IsConsistent, IsConsistent}
use honeypot_m1spro.Analyzer.Refinement.{record_all, known_to, ingest_all-refines}
use honeypot_m1spro.Analyzer.Delivery.{later_by, reship_idle}
use honeypot_m1spro.Analyzer.Stats.{firsts, group_by, stats, aggregate, attackers, attacker_of}
use honeypot_m1spro.Analyzer.Groups.{hostile, calm, scored, critical_group_iff}
use honeypot_m1spro.Analyzer.Backfill.{place, fill, backfill, Report}
use honeypot_m1spro.Analyzer.Placing.{backfill_once}
use honeypot_m1spro.Analyzer.Shipper.{
  load_offsets, seed_offsets_at_eof, start_offsets, read_line, read_lines, ship_line, ship_lines,
  poll_file, poll, turn, start, missing, Sent,
}
use honeypot_m1spro.Analyzer.Shipping.{concat, lines_of, poll_each, poll_each_exact}

abbrev paris : GeoRecord
paris = record { country = text "France"; latitude = real "48.85"; longitude = real "2.35" }

abbrev outside : Outside
outside = record {
  reader = some (λ ip. if ip == "203.0.113.10" then some paris else none);
  is_global = λ ip. true;
  api_key = "key";
  check = λ now ip. (some (record { confidence = some 90; country_code = some "FR" }), 250000);
  wake = λ now slept. now + slept;
  storable = λ e provided. eqb (size e.event_id) 36;
}

-- Ten seconds after the epoch.
abbrev ten : ℕ
ten = 10000000

abbrev asked : List (ℕ × String)
asked =
    (ten, "203.0.113.10") ∷ (ten + 300000, "198.51.100.23") ∷ (ten + 400000, "203.0.113.10") ∷ []

calls_run :
    calls outside asked no_abuse ≡ ("203.0.113.10", ten) ∷ ("198.51.100.23", ten + 1000000) ∷ []
unfolding calls abuse_lookup ask call_time cached lookup insert
calls_run = refl

calls-Spaced_example : Spaced 0 (calls outside asked no_abuse)
calls-Spaced_example = calls-Spaced outside asked no_abuse (λ now slept. omega arith)

abuse_lookup_once_example :
    All
      (λ c. c.0 ≢ "203.0.113.10")
      (calls outside asked (abuse_lookup outside ten "203.0.113.10" no_abuse).state)
unfolding abuse_lookup ask call_time cached lookup
abuse_lookup_once_example =
    abuse_lookup_once outside ten ten 250000 "203.0.113.10"
      (record { confidence = some 90; country_code = some "FR" }) no_abuse refl refl asked
      (omega arith, (omega arith, (omega arith, tt)))

enrich-lookup_run :
    lookup "country" (enrich outside ten "203.0.113.10" (some []) no_abuse).0
    ≡ or_other
        (known (lookup "country" (live outside ten "203.0.113.10" no_abuse).0))
        (lookup "country" [])
enrich-lookup_run = enrich-lookup outside ten "203.0.113.10" (some []) no_abuse "country"

abbrev fields : String → Option String → Fields
fields kind password = record {
  service = "ssh";
  src_ip = "203.0.113.10";
  src_port = 40000;
  session_id = "s";
  event_type = kind;
  dst_port = some 22;
  username = some "root";
  password = password;
  command = none;
  http = none;
  raw = none;
}

abbrev event : String → ℕ → String → Option String → Event
event id time kind password = record {
  version = "1.0.0";
  event_id = id;
  timestamp = time;
  fields = fields kind password;
}

abbrev id_a : String
id_a = "00000000-0000-4000-8000-00000000000a"

abbrev id_b : String
id_b = "00000000-0000-4000-8000-00000000000b"

-- The third repeats an identifier, the fourth does not conform, and the fifth has no UUID.
abbrev requests : List (ℕ × Incoming)
requests =
    (ten, record { event = event id_a ten "auth_attempt" (some "toor"); provided = none })
    ∷ (ten + 10, record { event = event id_b (ten + 100) "disconnect" none; provided = none })
    ∷ (ten + 20, record { event = event id_a ten "connect" none; provided = none })
    ∷ (ten + 30, record { event = event "c" ten "reboot" none; provided = none })
    ∷ (ten + 40, record { event = event "no-uuid" ten "connect" none; provided = none })
    ∷ []

ids_run : map id_of (ingest_all outside requests new_analyzer).events ≡ id_a ∷ id_b ∷ []
unfolding ingest_all ingest accept insert_event insert_new row_of columns_of conforms reclassify
    update_where session_events order_asc insert_asc classify_session first_match matches_profile
    match_scanner match_bruteforcer match_bot match_humain features is_connect_close unique texts
    sum span last_time intervals sort_times insert_time enrich update not_null live abuse_lookup
    cached lookup ask insert geo_lookup call_time
ids_run = refl

ingest_all-IsConsistent_example : IsConsistent (ingest_all outside requests new_analyzer).events
ingest_all-IsConsistent_example =
    ingest_all-IsConsistent outside requests new_analyzer nil-IsConsistent

ingest_all-refines_example :
    known_to (ingest_all outside requests new_analyzer).events
    ≡ record_all outside requests (known_to [])
ingest_all-refines_example = ingest_all-refines outside requests new_analyzer

reship_idle_example :
    (ingest_all outside (later_by 60 requests) (ingest_all outside requests new_analyzer)).events
    ≡ (ingest_all outside requests new_analyzer).events
reship_idle_example = reship_idle outside 60 requests new_analyzer nil-IsConsistent

abbrev row : String → Option Label → Row
row ip l = record {
  event = record {
    event_id = "a";
    ts = ten;
    service = "ssh";
    src_ip = ip;
    src_port = 40000;
    dst_port = none;
    session_id = "s";
    event_type = "connect";
    username = none;
    password = none;
    command = none;
    http_method = none;
    http_path = none;
    user_agent = none;
    raw = none;
  };
  classification = l;
  country = null;
  latitude = null;
  longitude = null;
  abuse_score = null;
  enrichment = none;
}

abbrev two_rows : List Row
two_rows = row "203.0.113.10" (some bruteforcer) ∷ row "203.0.113.10" (some humain) ∷ []

critical_group_iff_example :
    is_critical (attacker_of (aggregate (row "203.0.113.10" none, two_rows)))
    ≡ (any scored two_rows || (any hostile two_rows && not (any calm two_rows)))
critical_group_iff_example = critical_group_iff (row "203.0.113.10" none) two_rows

-- The bruteforcer is not exported once the same address had a session of a human.
hidden_bruteforcer : map (λ a. is_critical (attacker_of a)) (attackers two_rows) ≡ false ∷ []
unfolding attackers group_by firsts order_desc insert_desc is_critical
hidden_bruteforcer = refl

abbrev placed_rows : List Row
placed_rows = map (place (located (some paris))) two_rows

backfill_run :
    backfill outside two_rows
    ≡ some (
      placed_rows,
      record { geoloc_ips = 1; updated_rows = 2; skipped_private = 0; no_location = 0 },
    )
unfolding backfill fill geo_lookup unique update_where lookup
backfill_run = refl

backfill_once_run :
    (again : Report) × (backfill outside placed_rows ≡ some (placed_rows, again))
    × (again.updated_rows ≡ 0)
backfill_once_run =
    backfill_once outside two_rows placed_rows
      (record { geoloc_ips = 1; updated_rows = 2; skipped_private = 0; no_location = 0 })
      backfill_run

read_lines_run : read_lines 7 "ab\r\n\rc\n" ≡ ("ab\n" ∷ "\n" ∷ "c\n" ∷ [], "")
unfolding read_lines read_line
read_lines_run = refl

-- A parser that accepts texts with a brace in front.
abbrev loads : String → Option String
loads s = if starts_with s "{" then some s else none

abbrev nothing_sent : Sent String
nothing_sent = record { unified = []; posts = [] }

poll_each_exact_run : poll_each loads "" ("{1}\n{2}\n" ∷ "{3}\n" ∷ []) (0, nothing_sent) ≡ (
  size ("" <> concat ("{1}\n{2}\n" ∷ "{3}\n" ∷ [])),
  ship_lines loads (lines_of (concat ("{1}\n{2}\n" ∷ "{3}\n" ∷ []))) nothing_sent,
)
poll_each_exact_run =
    poll_each_exact loads "" ("{1}\n{2}\n" ∷ "{3}\n" ∷ []) nothing_sent (refl, (refl, tt))

poll_each_run :
    (poll_each loads "" ("{1}\n{2}\n" ∷ "{3}\n" ∷ []) (0, nothing_sent)).1.posts
    ≡ "{1}" ∷ "{2}" ∷ "{3}" ∷ []
unfolding poll_file read_lines read_line ship_lines ship_line
poll_each_run = refl

-- A line that is read before its end is lost: neither part is an event.
partial_line_run : (poll_each loads "" ("{1" ∷ "}\n" ∷ []) (0, nothing_sent)).1.posts ≡ "{1" ∷ []
unfolding poll_file read_lines read_line ship_lines ship_line
partial_line_run = refl

abbrev files : Dict String
files = ("ssh", "{1}\n{2}\n") ∷ ("telnet", "{3}\n") ∷ []

-- A first start reads from the end of the files, one with SHIP_FROM_START from the beginning.
start_run :
    ((turn loads files true 300 (start false files true missing nothing_sent)).sent.posts ≡ [])
    × ((turn loads files true 300 (start true files true missing nothing_sent)).sent.posts
        ≡ "{1}" ∷ "{2}" ∷ "{3}" ∷ [])
    × ((turn loads files true 300 (start true files true missing nothing_sent)).exports ≡ 1)
unfolding turn start start_offsets load_offsets seed_offsets_at_eof poll poll_file read_lines
    read_line ship_lines ship_line lookup insert
start_run = (refl, refl, refl)

stats_run :
    ((stats two_rows).total_events ≡ 2)
    × ((stats two_rows).unique_ips ≡ 1)
    × ((stats two_rows).by_service ≡ ("ssh", 2) ∷ [])
    × (length (list_events 0 two_rows) ≡ 1)
unfolding stats group_by firsts order_desc insert_desc unique list_events
stats_run = (refl, refl, refl, refl)
