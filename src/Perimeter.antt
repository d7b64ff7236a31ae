-- ===== src/Perimeter.antt =====
-- secure_app/main.py: what create_app puts around the routes. A header's name stands in lower case, in which
-- the framework compares it; a header of one name is set once.
pub mod Headers
pub mod Tests
use honeypot_m1spro.Base.{
  Dict, insert, lookup, has_key, ℕ, code, String, Bool, true, Option, none, some, List, [], ◌∷◌,
  ◌++◌, map, if◌then◌else◌,
}
use honeypot_m1spro.Http.{
  Header, www_authenticate, retry_after_seconds, Response, ok, http_error, uncaught,
}

-- A JSON answer with a `detail`, the page of the front-end, the JSON of a handler's value, or the text
-- that the CORS middleware answers to a preflight.
pub data Body (A : Type 0) : Type 0 where
  detail : String → Body A
  html : String → Body A
  value : A → Body A
  plain_text : String → Body A

pub record HttpResponse (A : Type 0) : Type 0 where
  pub status_code : ℕ
  pub headers : Dict String
  pub body : Body A

abbrev pub ui_csp : String
ui_csp =
    "default-src 'none'; script-src 'self'; style-src 'self'; connect-src 'self'; img-src 'self' data:; font-src 'self'; base-uri 'none'; form-action 'self'; frame-ancestors 'none'"

-- `_SECURITY_HEADERS`.
abbrev pub security_headers : Dict String
security_headers =
    ("x-content-type-options", "nosniff")
    ∷ ("x-frame-options", "DENY")
    ∷ ("referrer-policy", "no-referrer")
    ∷ ("cross-origin-opener-policy", "same-origin")
    ∷ ("cross-origin-resource-policy", "same-origin")
    ∷ ("content-security-policy", "default-src 'none'; frame-ancestors 'none'")
    ∷ ("permissions-policy", "geolocation=(), microphone=(), camera=()")
    ∷ ("cache-control", "no-store")
    ∷ ("pragma", "no-cache")
    ∷ []

abbrev pub hsts : String × String
hsts = ("strict-transport-security", "max-age=63072000; includeSubDomains")

-- `response.headers.setdefault`.
unfoldable pub setdefault : String → String → Dict String → Dict String
setdefault k v hs = if has_key k hs then hs else hs ++ (k, v) ∷ []

unfoldable pub set_defaults : Dict String → Dict String → Dict String
set_defaults [] hs = hs
set_defaults ((k, v) ∷ rest) hs = set_defaults rest (setdefault k v hs)

-- The middleware `security_headers`.
unfoldable pub with_security_headers : Bool → Dict String → Dict String
with_security_headers is_prod hs =
    let secured = set_defaults security_headers hs in
    if is_prod then setdefault hsts.0 hsts.1 secured else secured

-- The headers of an `HTTPException`; `decimal` is `str` on numbers.
abbrev pub header_entry : (ℕ → String) → Header → String × String
header_entry decimal (www_authenticate scheme) = ("www-authenticate", scheme)
header_entry decimal (retry_after_seconds n) = ("retry-after", decimal n)

-- What comes of a request: a handler's answer, with the status of its route, a page, or a body that the
-- schema rejects.
pub data Outcome (A : Type 0) : Type 0 where
  handled : ℕ → Response A → Outcome A
  page : String → Outcome A
  invalid : Outcome A

-- What the CORS middleware does with a request, which is up to the framework: it answers a preflight
-- itself, or sets headers on the answer, none for a request without an origin.
pub data CorsAction (A : Type 0) : Type 0 where
  preflight : HttpResponse A → CorsAction A
  adds : Dict String → CorsAction A

-- `headers.update`.
unfoldable pub set_all : Dict String → Dict String → Dict String
set_all [] headers = headers
set_all ((k, v) ∷ rest) headers = set_all rest (insert k v headers)

module _ {A : Type 0} where
  -- `http_exception_handler`.
  abbrev http_exception_handler : (ℕ → String) → ℕ → String → List Header → HttpResponse A
  http_exception_handler decimal status text headers = record {
    status_code = status;
    headers = map (header_entry decimal) headers;
    body = detail text;
  }

  -- `validation_exception_handler`.
  abbrev validation_exception_handler : HttpResponse A
  validation_exception_handler = record {
    status_code = 422;
    headers = [];
    body = detail "Requête invalide.";
  }

  -- `unhandled_exception_handler`.
  abbrev pub unhandled_exception_handler : HttpResponse A
  unhandled_exception_handler = record {
    status_code = 500;
    headers = [];
    body = detail "Erreur interne.";
  }

  -- `_serve` of a page.
  abbrev serve_page : String → HttpResponse A
  serve_page content = record {
    status_code = 200;
    headers = ("content-security-policy", ui_csp) ∷ [];
    body = html content;
  }

  abbrev secure : Bool → HttpResponse A → HttpResponse A
  secure is_prod r = record r { headers = with_security_headers is_prod r.headers }

  -- The answer before the middleware; `none` is an exception that passes through it.
  unfoldable pub inner : (ℕ → String) → Outcome A → Option (HttpResponse A)
  inner decimal (handled status (ok a)) =
      some (record { status_code = status; headers = []; body = value a })
  inner decimal (handled status (http_error code text headers)) =
      some (http_exception_handler decimal code text headers)
  inner decimal (handled status uncaught) = none
  inner decimal (page content) = some (serve_page content)
  inner decimal invalid = some validation_exception_handler

  -- The answer to the client: the framework answers an uncaught exception outside of the middleware.
  abbrev outer : Bool → Option (HttpResponse A) → HttpResponse A
  outer is_prod none = unhandled_exception_handler
  outer is_prod (some r) = secure is_prod r

  -- `CORSMiddleware` stands inside of the other middlewares: it was added first.
  unfoldable pub with_cors : CorsAction A → Option (HttpResponse A) → Option (HttpResponse A)
  with_cors (preflight r) inside = some r
  with_cors (adds headers) none = none
  with_cors (adds headers) (some r) = some (record r { headers = set_all headers r.headers })

  unfoldable pub respond : Bool → (ℕ → String) → CorsAction A → Outcome A → HttpResponse A
  respond is_prod decimal cors o = outer is_prod (with_cors cors (inner decimal o))

-- `_pages`: the paths and the files of the front-end.
abbrev pub pages : Dict String
pages =
    ("/", "index.html")
    ∷ ("/login", "login.html")
    ∷ ("/register", "register.html")
    ∷ ("/dashboard", "dashboard.html")
    ∷ ("/coffre", "secrets.html")
    ∷ []

-- `_html_cache`, for what the files hold.
unfoldable pub html_cache : (String → String) → Dict String → Dict String
html_cache read_text [] = []
html_cache read_text ((path, file) ∷ rest) = (path, read_text file) ∷ html_cache read_text rest

-- The page of a path.
abbrev page_or_none : {A : Type 0} → Option String → Option (Outcome A)
page_or_none none = none
page_or_none (some content) = some (page content)

unfoldable pub page_at : {A : Type 0} → (String → String) → String → Option (Outcome A)
page_at read_text path = page_or_none (lookup path (html_cache read_text pages))

-- `docs_url`, `redoc_url` and `openapi_url`.
abbrev pub docs_urls : Bool → Option (String × String × String)
docs_urls is_prod = if is_prod then none else some ("/docs", "/redoc", "/openapi.json")

-- The settings of the CORS middleware.
pub record Cors : Type 0 where
  pub allow_origins : List String
  pub allow_credentials : Bool
  pub allow_methods : List String
  pub allow_headers : List String
  pub max_age : ℕ

abbrev pub cors : List String → Cors
cors allowed_origins = record {
  allow_origins = allowed_origins;
  allow_credentials = true;
  allow_methods = "GET" ∷ "POST" ∷ "DELETE" ∷ "OPTIONS" ∷ [];
  allow_headers = "Authorization" ∷ "Content-Type" ∷ [];
  max_age = 600;
}

-- `health`: the status and the version.
abbrev health : String → String × String
health version = ("ok", version)
