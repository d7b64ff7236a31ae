-- ===== src/Lib.antt =====
-- A verification library for the honeypot platform: the hardened companion application (secure_app), its
-- vulnerable counterpart (vuln_app), the honeypots with the fake shell that they share, and the analyzer
-- of their events.
--
-- The parts and how they interact. The honeypots append events to files; the shipper reads the lines and
-- posts them to the analyzer, which validates, enriches and stores each event once and labels its session;
-- the exports read the attackers from the table. secure_app is a FastAPI application over one SQLite database: a
-- request passes the rate limiter (logins only) and the authentication by a bearer token, then a
-- handler reads and writes the rows through the repository, calls the security services (Argon2,
-- PyJWT, pyotp, AES-GCM), and answers a value or an HTTP error. The honeypots (ssh, telnet) hand each
-- line of an attacker to a FakeShell, which keeps nothing but its working directory.
--
-- The files:
--   Base          shared names, texts as Python walks them, dictionaries, SQL on lists of rows
--   RateLimit     secure_app/ratelimit.py: SlidingWindowLimiter.check (Bucket for one key), reset,
--                 client_ip, rate_limit_dependency
--   Validators    secure_app/validators.py
--   Database      secure_app/database.py (the tables and their constraints) and
--                 secure_app/repository.py (one function per statement)
--   Http          answers: a value, an HTTPException, or an exception that nothing catches
--   Security      secure_app/security.py and secure_app/crypto.py, over the record Services of the
--                 third-party operations; IsLawful says what the program relies on, and
--                 Security.Model is an instance of it
--   Auth          secure_app/dependencies.py (get_current_user) and secure_app/routers/auth.py
--   Vault         secure_app/routers/users.py, notes.py and secrets.py
--   Application   secure_app/main.py: all routes over one state, App
--   Shell         honeypots/common/fakeshell.py, with posixpath.normpath, join and basename
--   Schemas       secure_app/schemas.py: the checks of a JSON object in front of a handler
--   Tools         secure_app/routers/tools.py: the ping, its process a parameter
--   Seed          secure_app/seed.py
--   Events        honeypots/common/events.py and schemas/event.schema.json: build_event and its contract
--   Honeypots     honeypots/telnet, ssh, ftp and http/server.py: sessions as the events they emit
--   Classifier    analyzer/classifier.py, analyzer/evaluate.py and schemas/profiles.json
--   Exports       analyzer/exports.py: the block list, the Sigma rules, the STIX indicators
--   Analyzer      analyzer/db.py and api.py (Store, Stats), the enrichers and the backfill (Enrichers,
--                 Backfill), and analyzer/shipper.py (Shipper)
--   Pipeline      honeypots/common/events.py (EventWriter) with the shipper, and attacks/assert_logs.py
--   Replay        attacks/replay_dataset.py
--   Config        secure_app/config.py
--   Perimeter     secure_app/main.py: the headers, the handlers of exceptions and the pages
--   Telemetry     secure_app/app_telemetry.py and its copy in vuln_app
--   Vulnerable    vuln_app/main.py: the tokens, the routes and the login's query
--
-- How state corresponds. App is the database, the set of revoked jti, the limiter of the logins and
-- the audit log; a handler is a function from App to its answer and the next App, so a commit is the
-- App that it returns. Random identifiers, salts and nonces and the clocks are arguments. A table is
-- the list of its rows in insertion order; an insertion that a UNIQUE, PRIMARY KEY or FOREIGN KEY
-- clause rejects is none, which a handler answers as an uncaught exception. Requests run one after
-- another: each handler uses its own connection, and SQLite serialises the writers.
--
-- The analyzer is its table of events with the cache and the clock of the reputation service; the shipper
-- is its offsets with what it has sent. Which events the columns of PostgreSQL take, how long a sleep lasts
-- on the clock, what the CORS middleware sets and what SQLite makes of a query are parameters; the events
-- of the channels of one SSH connection are interleaved in any order.
--
-- Bounds. Times of the limiter and of events are microseconds, those of tokens are seconds. Recursion is
-- structural, but for the reading of lines, whose fuel is the number of characters that are ahead: each
-- line takes one at least, and more fuel changes nothing. Texts are sequences of code points; str.lower
-- and str.isdigit beyond ASCII are parameters. The bytes of a log file and of a cipher text are characters.
--
-- Not modelled: process and network plumbing, sleeping and threads, logging configuration, the front-end,
-- the printed report of the evaluation, the command lines of the scripts, and the generation of the
-- written report, which only lays out a document.
pub mod Base
pub mod RateLimit
pub mod Shell
pub mod Database
pub mod Http
pub mod Security
pub mod Auth
pub mod Vault
pub mod Application
pub mod Validators
pub mod Events
pub mod Honeypots
pub mod Classifier
pub mod Schemas
pub mod Tools
pub mod Seed
pub mod Exports
pub mod Analyzer
pub mod Vulnerable
pub mod Config
pub mod Perimeter
pub mod Telemetry
pub mod Replay
pub mod Pipeline
