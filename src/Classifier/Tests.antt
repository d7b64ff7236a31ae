-- ===== src/Classifier/Tests.antt =====
-- Sessions of the four profiles.
use mathlib.Core.List.{Permᴰ}
use honeypot_m1spro.Base.{
  ℕ, zero, suc, ◌*◌, String, ◌≡◌, refl, ◌≢◌, ◌↔◌, ◌⊎◌, inl, true, false, Option, none, some, List,
  [], ◌∷◌, arith, ◌==◌, eq_iff,
}
use honeypot_m1spro.Classifier.{
  insert_time, sort_times, intervals, last_time, span, sum, unique, texts, is_connect_close,
  features, match_scanner, match_bruteforcer, match_bot, match_humain, matches_profile, first_match,
  classify_session, SessionEvent, Label, scanner_legitime, bruteforcer, bot, humain,
}
use honeypot_m1spro.Classifier.Generators.{gen_bruteforcer, gen_bot, gen_scanner, gen_humain}
use honeypot_m1spro.Classifier.Accuracy.{
  IsSample, bruteforcer_drawn, bot_drawn, scanner_drawn, humain_drawn,
}
use honeypot_m1spro.Classifier.Accuracy.Overall.{accuracy_generated}
use honeypot_m1spro.Classifier.Profiles.{profiles_disjoint, classify_session_iff}
use honeypot_m1spro.Classifier.Order.{classify_session-Perm}
use honeypot_m1spro.Classifier.Mean.{features-mean}
use honeypot_m1spro.Vault.{bullets}
use honeypot_m1spro.Classifier.Evaluation.{
  confusion_matrix, true_total, ratio, metrics, total, correct, accuracy, confusion_matrix-counts,
  IsShare, metrics-IsShare,
}

abbrev event : ℕ → String → Option String → Option String → SessionEvent
event ms kind command password = record {
  timestamp = ms * 1000;
  event_type = kind;
  command = command;
  password = password;
  known_scanner = false;
}

abbrev bot_session : List SessionEvent
bot_session =
    event 0 "connect" none none
    ∷ event 100 "auth_attempt" none (some "root")
    ∷ event 200 "auth_attempt" none (some "admin")
    ∷ event 300 "disconnect" none none
    ∷ []

abbrev human_session : List SessionEvent
human_session =
    event 0 "auth_success" none none
    ∷ event 2000 "command" (some "id") none
    ∷ event 4500 "command" (some "ls") none
    ∷ event 6000 "command" (some "pwd") none
    ∷ []

abbrev scanner_session : List SessionEvent
scanner_session =
    record (event 0 "connect" none none) { known_scanner = true }
    ∷ event 60 "disconnect" none none
    ∷ []

-- Attempts with as many passwords, one each tenth of a second.
abbrev attempts : ℕ → List SessionEvent
attempts zero = []
attempts (suc n) = event (100 * n) "auth_attempt" none (some (bullets n)) ∷ attempts n

classifier : Unit {0}
unfolding classify_session first_match matches_profile match_scanner match_bruteforcer match_bot
    match_humain features is_connect_close unique texts sum span last_time intervals sort_times
    insert_time
classifier = tt

sessions_labelled :
    (classify_session [] ≡ none)
    × (classify_session bot_session ≡ some bot)
    × (classify_session human_session ≡ some humain)
    × (classify_session scanner_session ≡ some scanner_legitime)
    × (classify_session (attempts 20) ≡ some bruteforcer)
    × (classify_session (attempts 19) ≡ some bot)
unfolding classifier
sessions_labelled = (refl, refl, refl, refl, refl, refl)

profiles_disjoint_run : (bot ≡ bot) ⊎ ((bot ≡ bot) ⊎ (bot ≡ bot))
unfolding classifier
profiles_disjoint_run = profiles_disjoint bot bot (features bot_session) refl refl

classify_session_iff_example :
    ((classify_session bot_session ≡ some scanner_legitime)
      ↔ (match_scanner (features bot_session) ≡ true))
    × ((classify_session bot_session ≡ some bruteforcer)
        ↔ (match_bruteforcer (features bot_session) ≡ true))
    × ((classify_session bot_session ≡ some humain) ↔ (match_humain (features bot_session) ≡ true))
    × ((classify_session bot_session ≡ some bot) ↔ (
        (match_bot (features bot_session) ≡ true)
        × (match_scanner (features bot_session) ≡ false)
        × (match_bruteforcer (features bot_session) ≡ false)))
classify_session_iff_example = classify_session_iff (event 0 "connect" none none) (
    event 100 "auth_attempt" none (some "root")
    ∷ event 200 "auth_attempt" none (some "admin")
    ∷ event 300 "disconnect" none none
    ∷ [])

features-mean_run :
    ((features human_session).interval_total ≡ 6000000) × ((features human_session).n_intervals ≡ 3)
unfolding classifier
features-mean_run = features-mean human_session

classify_session-Perm_example :
    classify_session (event 60 "disconnect" none none ∷ event 0 "connect" none none ∷ [])
    ≡ classify_session (event 0 "connect" none none ∷ event 60 "disconnect" none none ∷ [])
classify_session-Perm_example = classify_session-Perm (
    Permᴰ.swap {a = event 60 "disconnect" none none} {b = event 0 "connect" none none} {l = []} refl
      refl)

abbrev dataset : List (Label × List SessionEvent)
dataset =
    (bot, bot_session)
    ∷ (humain, human_session)
    ∷ (bot, human_session)
    ∷ (scanner_legitime, [])
    ∷ []

evaluation :
    (confusion_matrix classify_session dataset bot (some humain) ≡ 1)
    × (accuracy (confusion_matrix classify_session dataset) ≡ (2, 4))
    × ((metrics (confusion_matrix classify_session dataset) bot).f1 ≡ (2, 3))
    × ((metrics (confusion_matrix classify_session dataset) scanner_legitime).precision ≡ (0, 1))
unfolding classifier confusion_matrix accuracy metrics
evaluation = (refl, refl, refl, refl)

confusion_matrix-counts_run :
    (true_total (confusion_matrix classify_session dataset) bot ≡ 2)
    × (total (confusion_matrix classify_session dataset) ≡ 4)
confusion_matrix-counts_run = confusion_matrix-counts classify_session dataset bot

metrics-IsShare_run :
    IsShare (metrics (confusion_matrix classify_session dataset) bot).precision
    × IsShare (metrics (confusion_matrix classify_session dataset) bot).recall
    × IsShare (accuracy (confusion_matrix classify_session dataset))
metrics-IsShare_run = metrics-IsShare (confusion_matrix classify_session dataset) bot

-- One session of each generator.
abbrev drawn_dataset : List (Label × List SessionEvent)
drawn_dataset =
    (bot, gen_bot 40000 (("root", 60000) ∷ []))
    ∷ (scanner_legitime, gen_scanner true 20000 30000)
    ∷ (bruteforcer, gen_bruteforcer 25 (λ i. 7) (λ i. 60000))
    ∷ (
      humain,
      gen_humain 1200000
          (("id", 1300000) ∷ ("pwd", 1200000) ∷ ("ls -la", 1200000) ∷ ("whoami", 4000000) ∷ []),
    )
    ∷ []

apart : (s t : String) → (s == t) ≡ false → s ≢ t
apart s t f e = let same : (s == t) ≡ true = (eq_iff s t).1 e in cc

abbrev sample : List (String × ℕ)
sample = ("id", 1300000) ∷ ("pwd", 1200000) ∷ ("ls -la", 1200000) ∷ ("whoami", 4000000) ∷ []

sample-IsSample : IsSample sample
sample-IsSample = (
  (
    (apart "id" "pwd" refl, (apart "id" "ls -la" refl, (apart "id" "whoami" refl, tt))),
    (
      (apart "pwd" "ls -la" refl, (apart "pwd" "whoami" refl, tt)),
      ((apart "ls -la" "whoami" refl, tt), (tt, tt)),
    ),
  ),
  ((refl, omega arith), ((refl, omega arith), ((refl, omega arith), ((refl, omega arith), tt)))),
)

accuracy_generated_example :
    (correct (confusion_matrix classify_session drawn_dataset) ≡ 4)
    × (accuracy (confusion_matrix classify_session drawn_dataset) ≡ ratio 4 4)
accuracy_generated_example = accuracy_generated drawn_dataset (
  bot_drawn 40000 (("root", 60000) ∷ []) (omega arith) (omega arith, tt) (inl refl),
  (
    scanner_drawn true 20000 30000,
    (
      bruteforcer_drawn 25 (λ i. 7) (λ i. 60000) (omega arith) (omega arith),
      (
        humain_drawn 1200000
            (("id", 1300000) ∷ ("pwd", 1200000) ∷ ("ls -la", 1200000) ∷ ("whoami", 4000000) ∷ [])
            sample-IsSample (omega arith) (omega arith) (omega arith),
        tt,
      ),
    ),
  ),
)
