-- ===== src/Analyzer/Enrichers.antt =====
-- analyzer/enrichers: geolocation, reputation with its cache and its throttle, and their merge. The
-- MaxMind reader, the HTTP client, `ipaddress` and the clock are parameters; times are microseconds.
use honeypot_m1spro.Base.{
  Dict, lookup, insert, ℕ, ◌+◌, ◌-◌, ◌*◌, String, Bool, Option, none, some, [], ◌∷◌, ◌==◌, ltb,
  if◌then◌else◌,
}
use honeypot_m1spro.Events.{Event}
use honeypot_m1spro.Analyzer.{Enrichment, is_null, Value, null, text, int}

abbrev pub second : ℕ
second = 1000000

-- `_CACHE_TTL_S`.
abbrev pub cache_ttl : ℕ
cache_ttl = 24 * 3600 * second

-- A record of the GeoLite2 base: its English country name and its location.
pub record GeoRecord : Type 0 where
  pub country : Value
  pub latitude : Value
  pub longitude : Value

-- The `data` object of an answer of AbuseIPDB.
pub record Reputation : Type 0 where
  pub confidence : Option ℕ
  pub country_code : Option String

-- What the enrichers call: `reader` is `none` without a base, and answers `none` where the address is
-- absent or malformed; `is_global` is false for a text that is no address; `check` is `none` for an
-- error of the client, and tells how long the call took; `wake` is what the clock reads next after it
-- read a time and the thread slept for so long. `storable` tells whether the columns of PostgreSQL take an
-- event with the enrichment that it carries: a UUID, an INET address, texts without NUL; what the enrichers
-- find is stored always.
pub record Outside : Type 0 where
  pub reader : Option (String → Option GeoRecord)
  pub is_global : String → Bool
  pub api_key : String
  pub check : ℕ → String → Option Reputation × ℕ
  pub wake : ℕ → ℕ → ℕ
  pub storable : Event → Option Enrichment → Bool

-- `GeoIPEnricher.lookup`.
abbrev pub located : Option GeoRecord → Enrichment
located none = []
located (some rec) =
    ("country", rec.country) ∷ ("latitude", rec.latitude) ∷ ("longitude", rec.longitude) ∷ []

unfoldable pub geo_lookup : Outside → String → Enrichment
geo_lookup out ip = elim out.reader [ none ↦ [] | some get_record ↦ located (get_record ip) ]

-- A row of the cache.
pub record CacheRow : Type 0 where
  pub score : ℕ
  pub country : Option String
  pub ts : ℕ

-- The cache and `_last_call`.
pub record Abuse : Type 0 where
  pub cache : Dict CacheRow
  pub last_call : ℕ

abbrev pub no_abuse : Abuse
no_abuse = record { cache = []; last_call = 0 }

abbrev text_or_null : Option String → Value
text_or_null none = null
text_or_null (some s) = text s

abbrev pub reputation : ℕ → Option String → Enrichment
reputation score country = ("abuse_score", int score) ∷ ("abuse_country", text_or_null country) ∷ []

-- `_cached`.
abbrev if_fresh : ℕ → Option CacheRow → Option Enrichment
if_fresh now none = none
if_fresh now (some row) =
    if ltb now (row.ts + cache_ttl) then some (reputation row.score row.country) else none

unfoldable pub cached : ℕ → String → Abuse → Option Enrichment
cached now ip s = if_fresh now (lookup ip s.cache)

-- `_store`.
abbrev pub store : ℕ → String → ℕ → Option String → Abuse → Abuse
store now ip score country s = record s {
  cache = insert ip (record { score = score; country = country; ts = now }) s.cache;
}

-- The second reading of the clock, after the throttle's sleep.
unfoldable pub call_time : Outside → ℕ → Abuse → ℕ
call_time out now s =
    if ltb now (s.last_call + second)
    then out.wake now (s.last_call + second - now)
    else out.wake now 0

-- What a lookup answers, when it called the API, and the state that it leaves.
pub record Lookup : Type 0 where
  pub answer : Enrichment
  pub call : Option ℕ
  pub state : Abuse

abbrev pub score_or_zero : Option ℕ → ℕ
score_or_zero none = 0
score_or_zero (some n) = n

abbrev pub after_check : ℕ → String → Option Reputation × ℕ → Abuse → Lookup
after_check start ip (none, _) s = record { answer = []; call = some start; state = s }
after_check start ip (some found, took) s =
    let score = score_or_zero found.confidence in
    record {
      answer = reputation score found.country_code;
      call = some start;
      state = store (start + took) ip score found.country_code s;
    }

-- `AbuseIPDBEnricher.lookup` for an address that is not in the cache.
unfoldable pub ask : Outside → ℕ → String → Abuse → Lookup
ask out now ip s =
    if out.api_key == ""
    then record { answer = []; call = none; state = s }
    else let start = call_time out now s in
      after_check start ip (out.check start ip) (record s { last_call = start })

unfoldable pub abuse_lookup : Outside → ℕ → String → Abuse → Lookup
abuse_lookup out now ip s = elim (cached now ip s) [
  | some answer ↦ record { answer = answer; call = none; state = s }
  | none ↦ ask out now ip s
]

-- `d.update(e)`, and the same for the entries that are not null.
unfoldable pub update : Enrichment → Enrichment → Enrichment
update d [] = d
update d ((k, v) ∷ e) = update (insert k v d) e

unfoldable pub not_null : Enrichment → Enrichment
not_null [] = []
not_null ((k, v) ∷ e) = let rest = not_null e in if is_null v then rest else (k, v) ∷ rest

abbrev pub provided_or_empty : Option Enrichment → Enrichment
provided_or_empty none = []
provided_or_empty (some d) = d

-- The entries that the enrichers find, and the reputation's state.
unfoldable pub live : Outside → ℕ → String → Abuse → Enrichment × Abuse
live out now ip s =
    let geo = update [] (geo_lookup out ip) in
    let found = abuse_lookup out now ip s in
    if out.is_global ip then (update geo found.answer, found.state) else (geo, s)

-- `enrich`.
unfoldable pub enrich : Outside → ℕ → String → Option Enrichment → Abuse → Enrichment × Abuse
enrich out now ip provided s =
    let found = live out now ip s in
    (update (provided_or_empty provided) (not_null found.0), found.1)
