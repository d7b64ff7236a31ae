-- ===== src/Http.antt =====
-- What a FastAPI handler answers: a value, an `HTTPException` with its status, detail and headers,
-- or an uncaught exception, which the application turns into a generic 500.
use honeypot_m1spro.Base.{ℕ, String, List}

pub data Header : Type 0 where
  www_authenticate : String → Header
  retry_after_seconds : ℕ → Header

pub data Response {ℓ} (A : Type ℓ) : Type ℓ where
  ok : A → Response A
  http_error : ℕ → String → List Header → Response A
  uncaught : Response A
