-- ===== src/Classifier.antt =====
-- analyzer/classifier.py and schemas/profiles.json: the features of a session and the four profiles.
-- Times are microseconds; a mean interval is kept as the total and the number of the intervals, so
-- that a comparison with a bound in milliseconds multiplies the bound instead of dividing.
pub mod Profiles
pub mod Order
pub mod Mean
pub mod Evaluation
pub mod Generators
pub mod Accuracy
pub mod Tests
use honeypot_m1spro.Base.{
  ℕ, ◌+◌, ◌-◌, ◌*◌, String, Bool, true, not, ◌&&◌, ◌||◌, Option, none, some, List, [], ◌∷◌, map,
  ◌==◌, leb, eqb, if◌then◌else◌, length, any, select,
}

-- What the classifier reads of an event; `known_scanner` is the flag of its enrichment.
pub record SessionEvent : Type 0 where
  pub timestamp : ℕ
  pub event_type : String
  pub command : Option String
  pub password : Option String
  pub known_scanner : Bool

-- `sorted(times)`.
unfoldable pub insert_time : ℕ → List ℕ → List ℕ
insert_time t [] = t ∷ []
insert_time t (u ∷ us) = let rest = insert_time t us in if leb t u then t ∷ u ∷ us else u ∷ rest

unfoldable pub sort_times : List ℕ → List ℕ
unfolding insert_time
sort_times [] = []
sort_times (t ∷ ts) = insert_time t (sort_times ts)

-- `times[i] - times[i - 1]`, for each `i`.
unfoldable pub intervals : List ℕ → List ℕ
intervals [] = []
intervals (t ∷ []) = []
intervals (t ∷ u ∷ us) = (u - t) ∷ intervals (u ∷ us)

-- `times[-1] - times[0]`, or zero.
unfoldable pub last_time : ℕ → List ℕ → ℕ
last_time t [] = t
last_time t (u ∷ us) = last_time u us

unfoldable pub span : List ℕ → ℕ
unfolding last_time
span [] = 0
span (t ∷ ts) = last_time t ts - t

unfoldable pub sum : List ℕ → ℕ
sum [] = 0
sum (n ∷ ns) = n + sum ns

-- `{x for x in xs}`, and its size.
unfoldable pub unique : List String → List String
unique [] = []
unique (x ∷ xs) = let rest = unique xs in if any (λ y. y == x) xs then rest else x ∷ rest

-- The truthy texts among optional ones.
unfoldable pub texts : List (Option String) → List String
texts [] = []
texts (none ∷ os) = texts os
texts (some s ∷ os) = let rest = texts os in if s == "" then rest else s ∷ rest

abbrev pub is_type : String → SessionEvent → Bool
is_type t e = e.event_type == t

-- `_is_connect_close`.
unfoldable pub is_connect_close : List SessionEvent → Bool
is_connect_close events =
    not (any (λ e. is_type "command" e || is_type "auth_success" e) events)
    && leb (length (select (is_type "auth_attempt") events)) 2

pub record Features : Type 0 where
  pub n_events : ℕ
  pub duration : ℕ
  pub auth_attempts : ℕ
  pub distinct_passwords : ℕ
  pub n_commands : ℕ
  pub distinct_commands : ℕ
  pub interval_total : ℕ
  pub n_intervals : ℕ
  pub single_connect_close : Bool
  pub known_scanner : Bool

-- `_features`; the standard deviation, which no profile reads, is left out.
unfoldable pub features : List SessionEvent → Features
unfolding sort_times intervals span sum unique texts is_connect_close
features events =
    let times = sort_times (map (λ e. e.timestamp) events) in
    let auth = select (is_type "auth_attempt") events in
    let cmds = texts (map (λ e. e.command) (select (is_type "command") events)) in
    record {
      n_events = length events;
      duration = span times;
      auth_attempts = length auth;
      distinct_passwords = length (unique (texts (map (λ e. e.password) auth)));
      n_commands = length cmds;
      distinct_commands = length (unique cmds);
      interval_total = sum (intervals times);
      n_intervals = length (intervals times);
      single_connect_close = is_connect_close events;
      known_scanner = any (λ e. e.known_scanner) events;
    }

-- `mean_interval_ms <= bound` and `mean_interval_ms >= bound`; the mean of no interval is 0.
abbrev mean_at_most : ℕ → Features → Bool
mean_at_most bound f = leb f.interval_total (bound * 1000 * f.n_intervals)

abbrev mean_at_least : ℕ → Features → Bool
mean_at_least bound f =
    if eqb f.n_intervals 0 then eqb bound 0 else leb (bound * 1000 * f.n_intervals) f.interval_total

-- The matchers, with the criteria of `profiles.json`.
unfoldable pub match_scanner : Features → Bool
match_scanner f =
    leb f.auth_attempts 2
    && leb f.n_commands 0
    && f.single_connect_close
    && (f.known_scanner || not true)

unfoldable pub match_bruteforcer : Features → Bool
match_bruteforcer f = leb 20 f.auth_attempts && leb 15 f.distinct_passwords && leb f.n_commands 2

unfoldable pub match_bot : Features → Bool
match_bot f =
    leb f.duration (5 * 1000000)
    && leb f.n_commands 1
    && leb 1 f.auth_attempts
    && (mean_at_most 200 f || leb f.n_events 2)

unfoldable pub match_humain : Features → Bool
match_humain f = leb 3 f.n_commands && leb 3 f.distinct_commands && mean_at_least 800 f

-- The profiles, and `_MATCHERS`.
pub data Label : Type 0 where
  scanner_legitime bruteforcer bot humain : Label

unfoldable pub matches_profile : Label → Features → Bool
unfolding match_scanner match_bruteforcer match_bot match_humain
matches_profile scanner_legitime f = match_scanner f
matches_profile bruteforcer f = match_bruteforcer f
matches_profile bot f = match_bot f
matches_profile humain f = match_humain f

abbrev pub priority_order : List Label
priority_order = scanner_legitime ∷ bruteforcer ∷ bot ∷ humain ∷ []

unfoldable pub first_match : List Label → Features → Option Label
unfolding matches_profile
first_match [] f = none
first_match (l ∷ ls) f = let rest = first_match ls f in if matches_profile l f then some l else rest

-- `classify_session`.
unfoldable pub classify_session : List SessionEvent → Option Label
unfolding first_match
classify_session [] = none
classify_session (e ∷ events) = first_match priority_order (features (e ∷ events))
