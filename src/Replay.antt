-- ===== src/Replay.antt =====
-- attacks/replay_dataset.py: the dataset of sessions with their own geolocation, and its shipping. Drawn
-- identifiers, the hash of a session and the answers of the analyzer are arguments; times are microseconds.
pub mod Shift
pub mod Labels
pub mod Tests
use honeypot_m1spro.Base.{
  ℕ, suc, ◌+◌, ◌-◌, ◌*◌, ◌%◌, String, true, ◌&&◌, Option, none, some, List, [], ◌∷◌, ◌++◌, map,
  ◌==◌, ltb, leb, if◌then◌else◌,
}
use honeypot_m1spro.Classifier.{Label, scanner_legitime, bruteforcer, bot, humain}
use honeypot_m1spro.Events.{HttpPart}
use honeypot_m1spro.Analyzer.{Enrichment, text, real, flag}
use honeypot_m1spro.Analyzer.Store.{Incoming}

-- A tuple of `SOURCES`; a coordinate is its text.
pub record Source : Type 0 where
  pub ip : String
  pub country : String
  pub latitude : String
  pub longitude : String
  pub profile : Label
  pub service : String

abbrev source : String → String → String → String → Label → String → Source
source ip country latitude longitude profile service = record {
  ip = ip;
  country = country;
  latitude = latitude;
  longitude = longitude;
  profile = profile;
  service = service;
}

abbrev pub sources : List Source
sources =
    source "203.0.113.10" "Russia" "55.7558" "37.6173" bruteforcer "ssh"
    ∷ source "198.51.100.23" "China" "39.9042" "116.4074" bot "ssh"
    ∷ source "192.0.2.44" "Brazil" "-23.5505" "-46.6333" bruteforcer "ftp"
    ∷ source "203.0.113.77" "United States" "39.0438" "-77.4874" scanner_legitime "http"
    ∷ source "198.51.100.88" "Germany" "50.1109" "8.6821" bot "telnet"
    ∷ source "192.0.2.130" "India" "19.0760" "72.8777" bruteforcer "ssh"
    ∷ source "203.0.113.150" "Netherlands" "52.3676" "4.9041" scanner_legitime "http"
    ∷ source "198.51.100.200" "Singapore" "1.3521" "103.8198" bot "http"
    ∷ source "192.0.2.210" "Nigeria" "6.5244" "3.3792" bruteforcer "telnet"
    ∷ source "203.0.113.222" "Australia" "-33.8688" "151.2093" humain "ssh"
    ∷ []

abbrev passwords : List String
passwords =
    "123456" ∷ "password" ∷ "admin" ∷ "root" ∷ "123456789" ∷ "qwerty" ∷ "12345678" ∷ "111111"
    ∷ "1234567" ∷ "dragon" ∷ "letmein" ∷ "monkey" ∷ "abc123" ∷ "iloveyou" ∷ "000000" ∷ "password1"
    ∷ "qwerty123" ∷ "admin123" ∷ "root123" ∷ "toor" ∷ "welcome" ∷ "changeme" ∷ []

-- `_HTTP_PATHS[:5]`.
abbrev http_paths : List String
http_paths = "/" ∷ "/robots.txt" ∷ "/.env" ∷ "/admin" ∷ "/wp-login.php" ∷ []

abbrev human_commands : List String
human_commands =
    "ls -la" ∷ "whoami" ∷ "cat /etc/passwd" ∷ "uname -a" ∷ "ps aux" ∷ "sudo -l"
    ∷ "cat ~/.bash_history" ∷ []

abbrev ua_scanner : String
ua_scanner = "Mozilla/5.0 (compatible; Nmap Scripting Engine; https://nmap.org/book/nse.html)"

-- `_enrichment`.
abbrev scanner_entries : Label → Enrichment
scanner_entries scanner_legitime =
    ("known_scanner", flag true) ∷ ("asn", text "AS-SCANNER (recherche / GreyNoise RIOT)") ∷ []
scanner_entries _ = []

unfoldable pub enrichment_of : Source → Enrichment
enrichment_of src =
    ("country", text src.country)
    ∷ ("latitude", real src.latitude)
    ∷ ("longitude", real src.longitude)
    ∷ ("source", text "dataset-replay")
    ∷ scanner_entries src.profile

-- What a session draws: its identifier, the hash of it, and the identifiers of its events.
pub record SessionDraws : Type 0 where
  pub session_id : String
  pub hash : ℕ
  pub event_id : ℕ → String

-- The keyword arguments of `_event`.
pub record Extra : Type 0 where
  pub username : Option String
  pub password : Option String
  pub command : Option String
  pub http : Option HttpPart

abbrev no_extra : Extra
no_extra = record { username = none; password = none; command = none; http = none }

abbrev dst_port : String → ℕ
dst_port service =
    if service == "ssh"
    then 22
    else if service == "http"
    then 80
    else if service == "ftp"
    then 21
    else 23

-- `_event`.
unfoldable pub event_of : Source → SessionDraws → ℕ → ℕ → String → Extra → Incoming
event_of src d n ts event_type extra = record {
  event = record {
    version = "1.0.0";
    event_id = d.event_id n;
    timestamp = ts;
    fields = record {
      service = src.service;
      src_ip = src.ip;
      src_port = 40000 + d.hash % 20000;
      session_id = d.session_id;
      event_type = event_type;
      dst_port = some (dst_port src.service);
      username = extra.username;
      password = extra.password;
      command = extra.command;
      http = extra.http;
      raw = none;
    };
  };
  provided = some (enrichment_of src);
}

-- A call of `_event` in `_session`: the milliseconds of its `step`, the type and the rest.
abbrev Move : Type 0
Move = ℕ × String × Extra

abbrev try_password : ℕ → String → String → Move
try_password ms username password =
    (ms, "auth_attempt", record no_extra { username = some username; password = some password })

abbrev fetch_path : String → Move
fetch_path path = (
  250,
  "http_request",
  record no_extra {
    http = some (record {
      method = "GET";
      path = path;
      query = none;
      headers = [];
      body = none;
      user_agent = some ua_scanner;
    });
  },
)

-- `for i, cmd in enumerate(_HUMAN_COMMANDS)`, from an index.
abbrev type_commands : ℕ → List String → List Move
type_commands i [] = []
type_commands i (c ∷ cs) =
    (1500 + i % 3 * 900, "command", record no_extra { command = some c }) ∷ type_commands (suc i) cs

abbrev moves : Label → List Move
moves bruteforcer =
    (0, "connect", no_extra) ∷ map (try_password 450 "root") passwords
    ++ (300, "disconnect", no_extra) ∷ []
moves bot =
    (0, "connect", no_extra) ∷ map (try_password 90 "admin") ("admin" ∷ "root" ∷ "123456" ∷ [])
    ++ (90, "disconnect", no_extra) ∷ []
moves scanner_legitime =
    (0, "connect", no_extra) ∷ map fetch_path http_paths ++ (200, "disconnect", no_extra) ∷ []
moves humain =
    (0, "connect", no_extra)
      ∷ try_password 1200 "admin" "P@ssw0rd!"
      ∷ (800, "auth_success", record no_extra { username = some "admin" })
      ∷ type_commands 0 human_commands
    ++ (2000, "disconnect", no_extra) ∷ []

-- The events of the calls, from the time that has passed.
unfoldable pub walk : Source → SessionDraws → ℕ → ℕ → ℕ → List Move → List Incoming
walk src d start n passed [] = []
walk src d start n passed ((ms, kind, extra) ∷ rest) =
    let now = passed + ms * 1000 in
    event_of src d n (start + now) kind extra ∷ walk src d start (suc n) now rest

-- `_session`.
unfoldable pub session : Source → SessionDraws → ℕ → List Incoming
session src d start = walk src d start 0 0 (moves src.profile)

-- `build_dataset`, the sources from the index `i` on.
unfoldable pub build_dataset : (ℕ → SessionDraws) → ℕ → ℕ → List Source → List Incoming
build_dataset draws base i [] = []
build_dataset draws base i (src ∷ rest) =
    session src (draws i) (base - (55 - i * 5) * 60 * 1000000)
    ++ build_dataset draws base (suc i) rest

-- `ship`, for the status of each answer; `none` is an error of the network.
abbrev count_answer : Option ℕ → ℕ × ℕ → ℕ × ℕ
count_answer none (good, bad) = (good, suc bad)
count_answer (some status) (good, bad) =
    if leb 200 status && ltb status 300 then (suc good, bad) else (good, suc bad)

unfoldable pub ship : (Incoming → Option ℕ) → List Incoming → ℕ × ℕ → ℕ × ℕ
ship post [] counts = counts
ship post (e ∷ es) counts = ship post es (count_answer (post e) counts)
