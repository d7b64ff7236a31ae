-- ===== src/Replay/Tests.antt =====
-- The dataset for concrete draws.
use honeypot_m1spro.Base.{◌≡◌, refl, some, map, length}
use honeypot_m1spro.Classifier.{classify_session, scanner_legitime}
use honeypot_m1spro.Replay.{
  sources, event_of, walk, session, build_dataset, ship, Source, SessionDraws,
}
use honeypot_m1spro.Replay.Labels.{seen, session-labelled}

abbrev draws : SessionDraws
draws = record { session_id = "s"; hash = 123456; event_id = λ n. "e" }

abbrev netherlands : Source
netherlands = record {
  ip = "203.0.113.150";
  country = "Netherlands";
  latitude = "52.3676";
  longitude = "4.9041";
  profile = scanner_legitime;
  service = "http";
}

session-labelled_example :
    classify_session (map seen (session netherlands draws 3600000000)) ≡ some scanner_legitime
session-labelled_example = session-labelled netherlands draws 3600000000

-- The events of all sources.
dataset_run : length (build_dataset (λ i. draws) 3600000000 0 sources) ≡ 136
unfolding build_dataset session walk event_of
dataset_run = refl

ship_run : ship (λ e. some 422) (session netherlands draws 0) (0, 0) ≡ (0, 7)
unfolding ship session walk event_of
ship_run = refl
