-- ===== src/Analyzer/Store.antt =====
-- analyzer/db.py and analyzer/api.py: the statements on the table of events and the requests.
use honeypot_m1spro.Base.{
  ◌&&◌, &&-true, true, ◌≡◌, refl, inl, inr, Bool-cases, update_where, order_desc, ℕ, zero, suc,
  String, Bool, false, Option, none, some, List, [], ◌∷◌, ◌++◌, map, ◌==◌, leb, if◌then◌else◌, any,
  select,
}
use honeypot_m1spro.Http.{Response, ok, http_error, uncaught}
use honeypot_m1spro.Events.{conforms, Event}
use honeypot_m1spro.Classifier.{classify_session, SessionEvent, Label}
use honeypot_m1spro.Analyzer.{Enrichment, get, is_true, row_of, Row}
use honeypot_m1spro.Analyzer.Enrichers.{no_abuse, enrich, Outside, Abuse}

-- `ON CONFLICT (event_id) DO NOTHING`; an identifier is the text of its UUID.
unfoldable pub insert_new : Event → Enrichment → Option Label → List Row → List Row
insert_new e enrichment classification rows =
    if any (λ r. r.event.event_id == e.event_id) rows
    then rows
    else rows ++ row_of e enrichment classification ∷ []

-- `insert_event`; `none` is the error of PostgreSQL for a value that its column does not take.
unfoldable pub insert_event :
    Bool → Event → Enrichment → Option Label → List Row → Option (List Row)
insert_event storable e enrichment classification rows =
    if storable then some (insert_new e enrichment classification rows) else none

-- `ORDER BY ts`; rows of one time stay in insertion order.
module _ {A : Type 0} (key : A → ℕ) where
  unfoldable pub insert_asc : A → List A → List A
  insert_asc x [] = x ∷ []
  insert_asc x (y ∷ ys) =
      let rest = insert_asc x ys in if leb (key x) (key y) then x ∷ y ∷ ys else y ∷ rest

  unfoldable pub order_asc : List A → List A
  order_asc [] = []
  order_asc (x ∷ xs) = insert_asc x (order_asc xs)

abbrev pub in_session : String → Row → Bool
in_session id r = r.event.session_id == id

unfoldable pub session_events : String → List Row → List Row
session_events id rows = order_asc (λ (r : Row). r.event.ts) (select (in_session id) rows)

-- `(e.get("enrichment") or {}).get("known_scanner")`.
abbrev known_scanner_of : Option Enrichment → Bool
known_scanner_of none = false
known_scanner_of (some d) = is_true (get "known_scanner" d)

-- What the classifier reads of a row.
abbrev pub session_event : Row → SessionEvent
session_event r = record {
  timestamp = r.event.ts;
  event_type = r.event.event_type;
  command = r.event.command;
  password = r.event.password;
  known_scanner = known_scanner_of r.enrichment;
}

abbrev pub label : Label → Row → Row
label l r = record r { classification = some l }

-- `UPDATE events SET classification = … WHERE session_id = …`, where the session has a label.
unfoldable pub reclassify : String → Option Label → List Row → List Row
reclassify id none rows = rows
reclassify id (some l) rows = update_where (in_session id) (label l) rows

-- The state of the analyzer: the table, and the reputation's cache and clock.
pub record Analyzer : Type 0 where
  pub events : List Row
  pub abuse : Abuse

abbrev pub new_analyzer : Analyzer
new_analyzer = record { events = []; abuse = no_abuse }

-- The body of `POST /events`; the schema allows an `enrichment` object.
pub record Incoming : Type 0 where
  pub event : Event
  pub provided : Option Enrichment

pub record Ingested : Type 0 where
  pub classification : Option Label
  pub enrichment : Enrichment

abbrev pub classify_rows : String → List Row → Option Label
classify_rows id rows = classify_session (map session_event (session_events id rows))

-- What follows the insertion; an error leaves the table as it was.
abbrev commit :
    String → Enrichment × Abuse → List Row → Option (List Row) → Response Ingested × Analyzer
commit id found before none = (uncaught, record { events = before; abuse = found.1 })
commit id found before (some rows) =
    let classification = classify_rows id rows in
    (
      ok (record { classification = classification; enrichment = found.0 }),
      record { events = reclassify id classification rows; abuse = found.1 },
    )

-- `ingest` after the validation.
unfoldable pub accept : Outside → ℕ → Incoming → Analyzer → Response Ingested × Analyzer
accept out now r s =
    let found = enrich out now r.event.fields.src_ip r.provided s.abuse in
    commit r.event.fields.session_id found s.events
      (insert_event (out.storable r.event r.provided) r.event found.0 none s.events)

-- `ingest`; the message of the schema's library is left out of the detail.
unfoldable pub ingest : Outside → ℕ → Incoming → Analyzer → Response Ingested × Analyzer
ingest out now r s =
    if conforms r.event then accept out now r s else (http_error 422 "Schema invalide: " [], s)

-- Whether a request can be stored.
abbrev pub taken : Outside → Incoming → Bool
taken out r = conforms r.event && out.storable r.event r.provided

-- The table after a valid request.
abbrev pub stored_rows : Outside → ℕ → Incoming → Analyzer → List Row
stored_rows out now r s =
    let found = enrich out now r.event.fields.src_ip r.provided s.abuse in
    let rows = insert_new r.event found.0 none s.events in
    let id = r.event.fields.session_id in reclassify id (classify_rows id rows) rows

pub ingest-taken :
    (out : Outside) (now : ℕ) (r : Incoming) (s : Analyzer)
    → taken out r ≡ true
    → (ingest out now r s).1.events ≡ stored_rows out now r s
unfolding ingest accept insert_event
ingest-taken out now r s h =
    let (valid, fits) = &&-true (conforms r.event) _ h in rw (valid, fits) refl

pub ingest-refused :
    (out : Outside) (now : ℕ) (r : Incoming) (s : Analyzer)
    → taken out r ≡ false
    → (ingest out now r s).1.events ≡ s.events
unfolding ingest accept insert_event
ingest-refused out now r s h = elim (Bool-cases (conforms r.event)) [
  | inr invalid ↦ rw invalid refl
  | inl valid ↦
      let odd : out.storable r.event r.provided ≡ false = rw valid at h in rw (valid, odd) refl
]

-- Requests, each at its time.
unfoldable pub ingest_all : Outside → List (ℕ × Incoming) → Analyzer → Analyzer
ingest_all out [] s = s
ingest_all out ((now, r) ∷ rs) s = ingest_all out rs (ingest out now r s).1

-- `limit = max(1, min(limit, 1000))`.
abbrev pub clamp : ℕ → ℕ
clamp limit = let n = if leb limit 1000 then limit else 1000 in if leb 1 n then n else 1

abbrev pub first_rows {ℓ} : {A : Type ℓ} → ℕ → List A → List A
first_rows zero xs = []
first_rows (suc n) [] = []
first_rows (suc n) (x ∷ xs) = x ∷ first_rows n xs

-- `list_events`; a negative limit is clamped to 1 like 0.
unfoldable pub list_events : ℕ → List Row → List Row
list_events limit rows = first_rows (clamp limit) (order_desc (λ r. r.event.ts) rows)
