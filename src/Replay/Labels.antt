-- ===== src/Replay/Labels.antt =====
-- attacks/replay_dataset.py and analyzer/classifier.py: what the dataset demonstrates.
use honeypot_m1spro.Base.{lookup, ℕ, String, ◌≡◌, refl, ap, ◌∙◌, none, some, List, map}
use honeypot_m1spro.Classifier.{
  insert_time, sort_times, intervals, last_time, span, sum, unique, texts, is_connect_close,
  features, match_scanner, match_bruteforcer, match_bot, match_humain, matches_profile, first_match,
  classify_session, SessionEvent, Label, scanner_legitime, bruteforcer, bot, humain,
}
use honeypot_m1spro.Analyzer.{columns_of, row_of}
use honeypot_m1spro.Analyzer.Store.{session_event, Incoming}
use honeypot_m1spro.Analyzer.Enrichers.{provided_or_empty}
use honeypot_m1spro.Replay.Shift.{shift, classify_session-shift}
use honeypot_m1spro.Replay.{enrichment_of, event_of, walk, session, Source, SessionDraws}

-- What the classifier reads of an event, with the enrichment that it carries.
abbrev pub seen : Incoming → SessionEvent
seen r = session_event (row_of r.event (provided_or_empty r.provided) none)

abbrev nobody : SessionDraws
nobody = record { session_id = ""; hash = 0; event_id = λ n. "" }

-- The session of a profile, from the time 0.
abbrev model_session : Label → List SessionEvent
model_session l = map seen (
    session
      (record { ip = ""; country = ""; latitude = ""; longitude = ""; profile = l; service = "" })
      nobody 0)

model_session-labelled : (l : Label) → classify_session (model_session l) ≡ some l
unfolding session walk event_of enrichment_of row_of columns_of lookup classify_session first_match
    matches_profile match_scanner match_bruteforcer match_bot match_humain features is_connect_close
    unique texts sum span last_time intervals sort_times insert_time
model_session-labelled scanner_legitime = refl
model_session-labelled bruteforcer = refl
model_session-labelled bot = refl
model_session-labelled humain = refl

session-model :
    (l : Label) (ip country latitude longitude service : String) (d : SessionDraws) (start : ℕ)
    → map seen (
        session
          (record {
            ip = ip;
            country = country;
            latitude = latitude;
            longitude = longitude;
            profile = l;
            service = service;
          })
          d
          start)
      ≡ map (shift start) (model_session l)
unfolding session walk event_of enrichment_of row_of columns_of lookup
session-model scanner_legitime ip country latitude longitude service d start = refl
session-model bruteforcer ip country latitude longitude service d start = refl
session-model bot ip country latitude longitude service d start = refl
session-model humain ip country latitude longitude service d start = refl

-- Every session of the dataset is labelled with the profile of its source, whenever it starts and whatever
-- is drawn.
pub session-labelled :
    (src : Source) (d : SessionDraws) (start : ℕ)
    → classify_session (map seen (session src d start)) ≡ some src.profile
session-labelled src d start =
    ap classify_session
      (session-model src.profile src.ip src.country src.latitude src.longitude src.service d start)
    ∙ classify_session-shift start (model_session src.profile)
    ∙ model_session-labelled src.profile
