-- ===== src/Telemetry/Tests.antt =====
-- Requests that are recorded.
use honeypot_m1spro.Base.{split_on, ℕ, ◌≡◌, refl, true, false, some, List, [], ◌∷◌, All}
use honeypot_m1spro.Shell.Paths.{is_space, lstrip, rstrip, strip}
use honeypot_m1spro.Telemetry.{
  metrics_of, classify, do_insert, client_ip_of, row_for, record_request, request_telemetry,
  Metrics, Sink, Weather, HttpCall,
}
use honeypot_m1spro.Telemetry.Transparent.{
  handle_all, responses, IsFaithful, handle_all-transparent,
}

abbrev metrics : Metrics
metrics = record { dsn = "host=db"; app = "secure_app" }

abbrev fair : Weather
fair = record { submits = true; alive = true; connects = true; inserts = true }

abbrev login_call : HttpCall
login_call = record {
  method = "POST";
  path = "/auth/login";
  forwarded_for = "203.0.113.10, 10.0.0.1";
  peer = some "10.0.0.2";
}

abbrev calls : List (Weather × HttpCall × ℕ)
calls = (fair, login_call, 401) ∷ (record fair { inserts = false }, login_call, 200) ∷ []

abbrev empty_sink : Sink
empty_sink = record { connected = false; rows = [] }

handle_all-transparent_run :
    ((handle_all some metrics calls empty_sink).0 ≡ responses calls)
    × All (IsFaithful metrics) (handle_all some metrics calls empty_sink).1.rows
handle_all-transparent_run = handle_all-transparent some metrics calls empty_sink tt

rows_run : (handle_all some metrics calls empty_sink).1 ≡ record {
  connected = false;
  rows =
      record {
        app = "secure_app";
        client_ip = some "203.0.113.10";
        method = "POST";
        path = "/auth/login";
        status_code = 401;
        attack_type = some "login (SQLi / brute-force)";
        blocked = true;
      }
      ∷ [];
}
unfolding handle_all request_telemetry record_request row_for do_insert classify client_ip_of
    split_on strip lstrip rstrip is_space
rows_run = refl

names_run : (metrics_of " " "").dsn ≡ ""
unfolding metrics_of strip lstrip rstrip is_space
names_run = refl
