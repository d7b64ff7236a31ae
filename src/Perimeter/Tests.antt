-- ===== src/Perimeter/Tests.antt =====
-- Answers of the application.
use honeypot_m1spro.Base.{
  insert, All, lookup, has_key, String, ◌≡◌, refl, true, false, none, some, [], ◌∷◌,
}
use honeypot_m1spro.Http.{retry_after_seconds, http_error, uncaught}
use honeypot_m1spro.Perimeter.{
  ui_csp, setdefault, set_defaults, with_security_headers, inner, respond, set_all, with_cors,
  CorsAction, adds, detail, Outcome, handled, page, invalid,
}
use honeypot_m1spro.Perimeter.Headers.{promised, respond_secured}

abbrev rejected : Outcome String
rejected = invalid

abbrev crashed : Outcome String
crashed = handled 200 uncaught

abbrev limited : Outcome String
limited = handled 200 (http_error 429 "" (retry_after_seconds 60 ∷ []))

abbrev one_page : Outcome String
one_page = page "<html>"

-- A request of an allowed origin.
abbrev origin : CorsAction String
origin = adds (("access-control-allow-origin", "http://localhost:5173") ∷ ("vary", "Origin") ∷ [])

abbrev same_site : CorsAction String
same_site = adds []

respond_secured_example :
    All
      (λ p. lookup p.0 (respond true (λ n. "60") origin rejected).headers ≡ some p.1)
      (promised true "default-src 'none'; frame-ancestors 'none'")
unfolding inner with_cors set_all insert lookup
respond_secured_example =
    respond_secured true (λ n. "60") origin rejected
      (record {
        status_code = 422;
        headers =
            ("access-control-allow-origin", "http://localhost:5173") ∷ ("vary", "Origin") ∷ [];
        body = detail "Requête invalide.";
      })
      refl (refl, (refl, (refl, (refl, (refl, (refl, (refl, (refl, (refl, (refl, tt))))))))))

-- The page keeps its own policy, an error gets the strict one, an uncaught exception none.
policies_run :
    (lookup "content-security-policy" (respond true (λ n. "60") same_site one_page).headers
      ≡ some ui_csp)
    × (lookup "content-security-policy" (respond false (λ n. "60") origin rejected).headers
        ≡ some "default-src 'none'; frame-ancestors 'none'")
    × (lookup "access-control-allow-origin" (respond false (λ n. "60") origin rejected).headers
        ≡ some "http://localhost:5173")
    × (lookup "retry-after" (respond false (λ n. "60") same_site limited).headers ≡ some "60")
    × (lookup "cache-control" (respond false (λ n. "60") origin crashed).headers ≡ none)
unfolding respond inner with_cors set_all insert with_security_headers set_defaults setdefault
    has_key lookup
policies_run = (refl, refl, refl, refl, refl)
