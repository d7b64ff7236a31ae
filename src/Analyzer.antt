-- ===== src/Analyzer.antt =====
-- analyzer/db.py and analyzer/api.py: the table of events and the ingestion of one event. A value of
-- another type than its column, which PostgreSQL refuses, is not modelled, and event identifiers are
-- compared in the canonical form in which the honeypots send them.
pub mod Enrichers
pub mod Throttle
pub mod Store
pub mod Merge
pub mod Labels
pub mod Ingest
pub mod Refinement
pub mod Stats
pub mod Backfill
pub mod Placing
pub mod Groups
pub mod Shipper
pub mod Shipping
pub mod Delivery
pub mod Tests
use honeypot_m1spro.Base.{
  Dict, lookup, ℕ, String, Bool, true, false, not, Option, none, some, [], ◌∷◌, ◌==◌, eqb,
}
use honeypot_m1spro.Classifier.{Label}
use honeypot_m1spro.Events.{HttpPart, Event}

-- A JSON value of an enrichment; a number with a fraction, which is only passed on, is its text.
pub data Value : Type 0 where
  null : Value
  text : String → Value
  int : ℕ → Value
  real : String → Value
  flag : Bool → Value

abbrev pub Enrichment : Type 0
Enrichment = Dict Value

-- `d.get(k)`.
abbrev pub value_of : Option Value → Value
value_of none = null
value_of (some v) = v

abbrev pub get : String → Enrichment → Value
get k d = value_of (lookup k d)

abbrev pub is_null : Value → Bool
is_null null = true
is_null _ = false

-- `bool(v)`.
abbrev pub is_true : Value → Bool
is_true null = false
is_true (text s) = not (s == "")
is_true (int n) = not (eqb n 0)
is_true (real s) = not (s == "0.0")
is_true (flag b) = b

-- The columns that an event fills.
pub record Columns : Type 0 where
  pub event_id : String
  pub ts : ℕ
  pub service : String
  pub src_ip : String
  pub src_port : ℕ
  pub dst_port : Option ℕ
  pub session_id : String
  pub event_type : String
  pub username : Option String
  pub password : Option String
  pub command : Option String
  pub http_method : Option String
  pub http_path : Option String
  pub user_agent : Option String
  pub raw : Option String

-- A row of the table; `none` and `null` stand for NULL.
pub record Row : Type 0 where
  pub event : Columns
  pub classification : Option Label
  pub country : Value
  pub latitude : Value
  pub longitude : Value
  pub abuse_score : Value
  pub enrichment : Option Enrichment

-- `(event.get("http") or {}).get(…)`.
abbrev http_method_of : Option HttpPart → Option String
http_method_of none = none
http_method_of (some h) = some h.method

abbrev http_path_of : Option HttpPart → Option String
http_path_of none = none
http_path_of (some h) = some h.path

abbrev user_agent_of : Option HttpPart → Option String
user_agent_of none = none
user_agent_of (some h) = h.user_agent

unfoldable pub columns_of : Event → Columns
columns_of e = record {
  event_id = e.event_id;
  ts = e.timestamp;
  service = e.fields.service;
  src_ip = e.fields.src_ip;
  src_port = e.fields.src_port;
  dst_port = e.fields.dst_port;
  session_id = e.fields.session_id;
  event_type = e.fields.event_type;
  username = e.fields.username;
  password = e.fields.password;
  command = e.fields.command;
  http_method = http_method_of e.fields.http;
  http_path = http_path_of e.fields.http;
  user_agent = user_agent_of e.fields.http;
  raw = e.fields.raw;
}

-- `Json(enrichment) if enrichment else None`.
abbrev json_column : Enrichment → Option Enrichment
json_column [] = none
json_column (kv ∷ d) = some (kv ∷ d)

-- The row that `insert_event` sends.
unfoldable pub row_of : Event → Enrichment → Option Label → Row
unfolding columns_of
row_of e enrichment classification = record {
  event = columns_of e;
  classification = classification;
  country = get "country" enrichment;
  latitude = get "latitude" enrichment;
  longitude = get "longitude" enrichment;
  abuse_score = get "abuse_score" enrichment;
  enrichment = json_column enrichment;
}
