-- ===== src/Perimeter/Headers.antt =====
-- secure_app/main.py: the headers of every answer.
use honeypot_m1spro.Base.{
  insert, lookup-insert, lookup-nil, List, map, sym, All, Dict, lookup, has_key, ℕ, String, ◌≡◌,
  refl, ap, subst, ◌∙◌, inl, inr, Bool, true, false, Option, none, some, [], ◌∷◌, ◌++◌, arith, ◌==◌,
  eq_iff, if◌then◌else◌, Bool-cases, Option-cases,
}
use mathlib.Core.Option.{some-injective}
use honeypot_m1spro.Http.{Header, www_authenticate, retry_after_seconds, ok, http_error, uncaught}
use honeypot_m1spro.Perimeter.{
  header_entry, ui_csp, set_all, with_cors, CorsAction, preflight, adds, handled, page, invalid,
  security_headers, hsts, setdefault, set_defaults, with_security_headers, inner, respond,
  HttpResponse, Outcome,
}

abbrev pub or_default : Option String → Option String → Option String
or_default none d = d
or_default (some v) d = some v

lookup-append :
    (k : String) (hs ds : Dict String)
    → lookup k (hs ++ ds) ≡ or_default (lookup k hs) (lookup k ds)
unfolding lookup
lookup-append k [] ds = refl
lookup-append k ((j, v) ∷ hs) ds = ground (arith, lookup-append k hs ds)

lookup-setdefault :
    (k j v : String) (hs : Dict String)
    → lookup k (setdefault j v hs) ≡ or_default (lookup k hs) (if j == k then some v else none)
unfolding setdefault has_key
lookup-setdefault k j v hs = elim (Option-cases (lookup j hs)) [
  | inl e ↦ rw e (lookup-append k hs ((j, v) ∷ []) ∙ unfold lookup in refl)
  | inr (w, e) ↦ rw e (elim (Bool-cases (j == k)) [
    | inr other ↦ rw other (kept (lookup k hs))
    | inl same ↦
        let there : lookup k hs ≡ some w =
          subst (λ i. lookup i hs ≡ some w) ((eq_iff j k).0 same) e in
        rw there refl
  ])
]
  where
    kept : (o : Option String) → o ≡ or_default o none
    kept none = refl
    kept (some x) = refl

lookup-set_defaults :
    (k : String) (ds hs : Dict String)
    → lookup k (set_defaults ds hs) ≡ or_default (lookup k hs) (lookup k ds)
unfolding set_defaults lookup
lookup-set_defaults k [] hs = none_right (lookup k hs)
  where
    none_right : (o : Option String) → o ≡ or_default o none
    none_right none = refl
    none_right (some x) = refl
lookup-set_defaults k ((j, v) ∷ ds) hs =
    lookup-set_defaults k ds (setdefault j v hs)
    ∙ ap (λ o. or_default o (lookup k ds)) (lookup-setdefault k j v hs)
    ∙ chain (lookup k hs) (j == k)
  where
    chain :
        (o : Option String) (b : Bool)
        → or_default (or_default o (if b then some v else none)) (lookup k ds)
          ≡ or_default o (if b then some v else lookup k ds)
    chain none true = refl
    chain none false = refl
    chain (some x) b = refl

-- What the middleware sets where nothing is set.
abbrev pub defaults : Bool → Dict String
defaults is_prod = security_headers ++ (if is_prod then hsts ∷ [] else [])

-- The middleware sets what is not set.
respond-headers :
    {A : Type 0} (is_prod : Bool) (decimal : ℕ → String) (cors : CorsAction A) (o : Outcome A)
    (r : HttpResponse A)
    → with_cors cors (inner decimal o) ≡ some r
    → (k : String)
    → lookup k (respond is_prod decimal cors o).headers
      ≡ or_default (lookup k r.headers) (lookup k (defaults is_prod))
unfolding respond with_security_headers set_defaults
respond-headers is_prod decimal cors o r e k = rw e (by_environment is_prod)
  where
    by_environment :
        (b : Bool)
        → lookup k (with_security_headers b r.headers)
          ≡ or_default (lookup k r.headers) (lookup k (defaults b))
    by_environment b = elim (Bool-cases b) [
      | inl prod ↦ rw prod (lookup-set_defaults k (security_headers ++ hsts ∷ []) r.headers)
      | inr dev ↦ rw dev (lookup-set_defaults k security_headers r.headers)
    ]

-- The headers that the CORS middleware sets.
abbrev pub headers_of : {A : Type 0} → CorsAction A → Dict String
headers_of (preflight r) = r.headers
headers_of (adds headers) = headers

lookup-set_all :
    (k : String) (hs ds : Dict String) → lookup k hs ≡ none → lookup k (set_all hs ds) ≡ lookup k ds
unfolding set_all lookup
lookup-set_all k [] ds h = refl
lookup-set_all k ((j, v) ∷ hs) ds h = elim (Bool-cases (j == k)) [
  | inl same ↦ absurd (let no : some v ≡ none = rw same at h in cc)
  | inr other ↦
      lookup-set_all k hs (insert j v ds) (rw other at h) ∙ lookup-insert j k v ds ∙ rw other refl
]

-- A name that no handler sets but that of a page.
record IsQuiet (k : String) : Type 0 where
  no_challenge : ("www-authenticate" == k) ≡ false
  no_delay : ("retry-after" == k) ≡ false

lookup-header_entries :
    (decimal : ℕ → String) (k : String) (headers : List Header)
    → IsQuiet k
    → lookup k (map (header_entry decimal) headers) ≡ none
unfolding lookup
lookup-header_entries decimal k [] q = refl
lookup-header_entries decimal k (www_authenticate s ∷ headers) q =
    rw q.no_challenge (lookup-header_entries decimal k headers q)
lookup-header_entries decimal k (retry_after_seconds n ∷ headers) q =
    rw q.no_delay (lookup-header_entries decimal k headers q)

-- The policy of a page of the front-end.
abbrev own_headers : {A : Type 0} → CorsAction A → Outcome A → Dict String
own_headers (adds _) (page _) =
    (
      "content-security-policy",
      "default-src 'none'; script-src 'self'; style-src 'self'; connect-src 'self'; img-src 'self' data:; font-src 'self'; base-uri 'none'; form-action 'self'; frame-ancestors 'none'",
    )
    ∷ []
own_headers _ _ = []

same :
    {A : Type 0} (x r : HttpResponse A) (k : String)
    → some x ≡ some r
    → lookup k r.headers ≡ lookup k x.headers
same x r k e = ap (λ y. lookup k y.headers) (sym (some-injective x r e))

lookup-inner :
    {A : Type 0} (decimal : ℕ → String) (cors : CorsAction A) (o : Outcome A) (r : HttpResponse A)
    (k : String)
    → with_cors cors (inner decimal o) ≡ some r
    → IsQuiet k
    → lookup k (headers_of cors) ≡ none
    → lookup k r.headers ≡ lookup k (own_headers cors o)
unfolding with_cors inner
lookup-inner decimal (preflight p) o r k e q h = same p r k e ∙ h ∙ unfold lookup in refl
lookup-inner decimal (adds hs) (handled s (ok a)) r k e q h =
    same _ r k e ∙ lookup-set_all k hs [] h
lookup-inner decimal (adds hs) (handled s (http_error code text headers)) r k e q h =
    same _ r k e
    ∙ lookup-set_all k hs (map (header_entry decimal) headers) h
    ∙ lookup-header_entries decimal k headers q
    ∙ sym (lookup-nil k)
lookup-inner decimal (adds hs) (handled s uncaught) r k e q h = absurd cc
lookup-inner decimal (adds hs) (page content) r k e q h =
    same _ r k e ∙ lookup-set_all k hs (("content-security-policy", ui_csp) ∷ []) h
lookup-inner decimal (adds hs) invalid r k e q h = same _ r k e ∙ lookup-set_all k hs [] h

-- What is promised, whatever the handler says.
abbrev pub promised : Bool → String → Dict String
promised is_prod policy =
    ("x-content-type-options", "nosniff")
    ∷ ("x-frame-options", "DENY")
    ∷ ("referrer-policy", "no-referrer")
    ∷ ("cross-origin-opener-policy", "same-origin")
    ∷ ("cross-origin-resource-policy", "same-origin")
    ∷ ("content-security-policy", policy)
    ∷ ("permissions-policy", "geolocation=(), microphone=(), camera=()")
    ∷ ("cache-control", "no-store")
    ∷ ("pragma", "no-cache")
    ∷ (if is_prod
        then ("strict-transport-security", "max-age=63072000; includeSubDomains") ∷ []
        else [])

-- The policy of an answer: a page has one of its own.
abbrev pub policy_of : {A : Type 0} → CorsAction A → Outcome A → String
policy_of (adds _) (page _) =
    "default-src 'none'; script-src 'self'; style-src 'self'; connect-src 'self'; img-src 'self' data:; font-src 'self'; base-uri 'none'; form-action 'self'; frame-ancestors 'none'"
policy_of _ _ = "default-src 'none'; frame-ancestors 'none'"

own_headers-other :
    {A : Type 0} (cors : CorsAction A) (o : Outcome A) (k : String)
    → ("content-security-policy" == k) ≡ false
    → lookup k (own_headers cors o) ≡ none
unfolding lookup
own_headers-other (preflight r) o k h = refl
own_headers-other (adds hs) (handled s r) k h = refl
own_headers-other (adds hs) invalid k h = refl
own_headers-other (adds hs) (page content) k h = rw h refl

own_headers-policy :
    {A : Type 0} (cors : CorsAction A) (o : Outcome A)
    → or_default
        (lookup "content-security-policy" (own_headers cors o))
        (some "default-src 'none'; frame-ancestors 'none'")
      ≡ some (policy_of cors o)
unfolding lookup
own_headers-policy (preflight r) o = refl
own_headers-policy (adds hs) (handled s r) = refl
own_headers-policy (adds hs) invalid = refl
own_headers-policy (adds hs) (page content) = refl

-- Every answer but that to an uncaught exception has each of the security headers with its value, pages
-- with a policy of their own, and in production HSTS, if the CORS middleware sets none of these names.
pub respond_secured :
    {A : Type 0} (is_prod : Bool) (decimal : ℕ → String) (cors : CorsAction A) (o : Outcome A)
    (r : HttpResponse A)
    → with_cors cors (inner decimal o) ≡ some r
    → All (λ p. lookup p.0 (headers_of cors) ≡ none) (promised true "")
    → All
        (λ p. lookup p.0 (respond is_prod decimal cors o).headers ≡ some p.1)
        (promised is_prod (policy_of cors o))
unfolding lookup
respond_secured is_prod decimal cors o r e (a, (b, (c, (d, (f, (g, (h, (i, (j, (k, _)))))))))) = (
  sent "x-content-type-options" (quiet refl refl) a refl refl,
  (
    sent "x-frame-options" (quiet refl refl) b refl refl,
    (
      sent "referrer-policy" (quiet refl refl) c refl refl,
      (
        sent "cross-origin-opener-policy" (quiet refl refl) d refl refl,
        (
          sent "cross-origin-resource-policy" (quiet refl refl) f refl refl,
          (
            strict,
            (
              sent "permissions-policy" (quiet refl refl) h refl refl,
              (
                sent "cache-control" (quiet refl refl) i refl refl,
                (sent "pragma" (quiet refl refl) j refl refl, hsts_of is_prod refl),
              ),
            ),
          ),
        ),
      ),
    ),
  ),
)
  where
    quiet :
        {k : String} → ("www-authenticate" == k) ≡ false → ("retry-after" == k) ≡ false → IsQuiet k
    quiet p q = record { no_challenge = p; no_delay = q }

    sent :
        (k : String) {v : String}
        → IsQuiet k
        → lookup k (headers_of cors) ≡ none
        → ("content-security-policy" == k) ≡ false
        → lookup k (defaults is_prod) ≡ some v
        → lookup k (respond is_prod decimal cors o).headers ≡ some v
    sent k q unset other set =
        respond-headers is_prod decimal cors o r e k
        ∙ ap (λ x. or_default x (lookup k (defaults is_prod)))
            (lookup-inner decimal cors o r k e q unset ∙ own_headers-other cors o k other)
        ∙ set

    strict :
        lookup "content-security-policy" (respond is_prod decimal cors o).headers
        ≡ some (policy_of cors o)
    strict =
        respond-headers is_prod decimal cors o r e "content-security-policy"
        ∙ ap (λ x. or_default x (some "default-src 'none'; frame-ancestors 'none'"))
            (lookup-inner decimal cors o r "content-security-policy" e (quiet refl refl) g)
        ∙ own_headers-policy cors o

    hsts_of :
        (b : Bool)
        → is_prod ≡ b
        → All {A = String × String}
            (λ p. lookup p.0 (respond is_prod decimal cors o).headers ≡ some p.1)
            (if b
              then ("strict-transport-security", "max-age=63072000; includeSubDomains") ∷ []
              else [])
    hsts_of false dev = tt
    hsts_of true prod =
        (sent "strict-transport-security" (quiet refl refl) k refl (rw prod refl), tt)
