-- ===== src/Analyzer/Backfill.antt =====
-- analyzer/backfill_geoip.py: the positions of stored events, from a geographic base that came later.
use honeypot_m1spro.Base.{
  update_where, ℕ, suc, ◌+◌, String, Bool, not, ◌&&◌, ◌||◌, Option, none, some, List, [], ◌∷◌, map,
  ◌==◌, if◌then◌else◌, length, select,
}
use honeypot_m1spro.Classifier.{unique}
use honeypot_m1spro.Analyzer.{Enrichment, get, is_null, Row}
use honeypot_m1spro.Analyzer.Enrichers.{geo_lookup, GeoRecord, Outside}

-- The counters that `main` prints.
pub record Report : Type 0 where
  pub geoloc_ips : ℕ
  pub updated_rows : ℕ
  pub skipped_private : ℕ
  pub no_location : ℕ

abbrev pub zeros : Report
zeros = record { geoloc_ips = 0; updated_rows = 0; skipped_private = 0; no_location = 0 }

abbrev pub has_position : Enrichment → Bool
has_position loc = not (is_null (get "latitude" loc) || is_null (get "longitude" loc))

-- `WHERE src_ip = … AND latitude IS NULL`.
abbrev pub unplaced : String → Row → Bool
unplaced ip r = r.event.src_ip == ip && is_null r.latitude

abbrev pub place : Enrichment → Row → Row
place loc r = record r {
  latitude = get "latitude" loc;
  longitude = get "longitude" loc;
  country = get "country" loc;
}

-- The loop of `main`.
unfoldable pub fill : Outside → List String → List Row → Report → List Row × Report
fill out [] rows report = (rows, report)
fill out (ip ∷ ips) rows report =
    let loc = geo_lookup out ip in
    let skip_it =
      fill out ips rows (record report { skipped_private = suc report.skipped_private }) in
    let nowhere = fill out ips rows (record report { no_location = suc report.no_location }) in
    let placed = fill out ips (update_where (unplaced ip) (place loc) rows) (record report {
      geoloc_ips = suc report.geoloc_ips;
      updated_rows = report.updated_rows + length (select (unplaced ip) rows);
    }) in
    if not (out.is_global ip) then skip_it else if has_position loc then placed else nowhere

-- `SELECT DISTINCT host(src_ip) … WHERE latitude IS NULL`.
abbrev pub unplaced_ips : List Row → List String
unplaced_ips rows =
    unique (map (λ (r : Row). r.event.src_ip) (select (λ (r : Row). is_null r.latitude) rows))

-- `main`; `none` is the `SystemExit` without a base.
abbrev pub with_reader :
    Option (String → Option GeoRecord) → List Row × Report → Option (List Row × Report)
with_reader none done = none
with_reader (some _) done = some done

unfoldable pub backfill : Outside → List Row → Option (List Row × Report)
backfill out rows = with_reader out.reader (fill out (unplaced_ips rows) rows zeros)
