-- ===== src/RateLimit.antt =====
-- secure_app/ratelimit.py: the sliding-window limiter and the dependency that answers 429.
-- Times are microseconds of the monotonic clock, which the caller passes in.
pub mod Bucket
pub mod Window
pub mod Tests
use honeypot_m1spro.Base.{ℕ, String, Option, none, some, List, [], Bool, ◌<>◌, Dict, lookup, insert}
use Bucket.{Verdict, allowed, retry_after, index_error, admit}

-- `SlidingWindowLimiter`: `hits` is the defaultdict of deques.
pub record Limiter : Type 0 where
  pub max_requests : ℕ
  pub window : ℕ
  pub hits : Dict (List ℕ)

-- `self._hits[key]`, where a missing key stands for an empty deque.
unfoldable pub bucket_of : String → Dict (List ℕ) → List ℕ
bucket_of key hits = elim (lookup key hits) [ none ↦ [] | some bucket ↦ bucket ]

unfoldable pub new_limiter : ℕ → ℕ → Limiter
new_limiter max_requests window_seconds = record {
  max_requests = max_requests;
  window = window_seconds;
  hits = [];
}

-- `check`: the purge is kept whatever the verdict.
unfoldable pub check : Limiter → String → ℕ → Verdict × Limiter
check l key now =
    let (verdict, bucket) = admit l.max_requests l.window now (bucket_of key l.hits) in
    (verdict, record l { hits = insert key bucket l.hits })

pub reset : Limiter → Limiter
reset l = record l { hits = [] }

-- `request.client.host`, if there is a client.
unfoldable pub client_ip : Option String → String
client_ip none = "unknown"
client_ip (some host) = host

-- What the dependency does with a request: pass it on, answer 429 with `Retry-After`, or crash.
pub data Gate : Type 0 where
  pass crash : Gate
  too_many : ℕ → Gate

unfoldable pub gate_of : Verdict → Gate
gate_of allowed = pass
gate_of (retry_after n) = too_many n
gate_of index_error = crash

unfoldable pub rate_limit_dependency : String → Limiter → Option String → ℕ → Gate × Limiter
unfolding gate_of client_ip
rate_limit_dependency name l client now =
    let (verdict, l') = check l (name <> ":" <> client_ip client) now in (gate_of verdict, l')
