-- ===== src/RateLimit/Bucket.antt =====
-- secure_app/ratelimit.py: one bucket of `SlidingWindowLimiter.check`, under the lock.
pub mod Laws
use honeypot_m1spro.Base.{
  ℕ, ◌+◌, ◌-◌, ◌*◌, ◌/◌, true, false, List, [], ◌∷◌, ◌++◌, leb, length, if◌then◌else◌,
}

-- Microseconds in a second.
abbrev pub ticks : ℕ
ticks = 1000000

-- What `check` answers: `(True, 0)`, `(False, n)`, or the `IndexError` of `bucket[0]` on an
-- empty deque.
pub data Verdict : Type 0 where
  allowed index_error : Verdict
  retry_after : ℕ → Verdict

-- `while bucket and bucket[0] <= now - window: popleft()`.
unfoldable pub purge : ℕ → ℕ → List ℕ → List ℕ
purge window now [] = []
purge window now (t ∷ bucket) = elim (leb (t + window * ticks) now) [
  | true ↦ purge window now bucket
  | false ↦ t ∷ bucket
]

-- `max(int(window - (now - bucket[0])) + 1, 1)`.
unfoldable pub wait : ℕ → ℕ → ℕ → ℕ
wait window now oldest =
    let seconds = (oldest + window * ticks - now) / ticks + 1 in
    if leb 1 seconds then seconds else 1

-- The answer when the purged bucket is full.
unfoldable pub refuse : ℕ → ℕ → List ℕ → Verdict
unfolding wait
refuse window now [] = index_error
refuse window now (oldest ∷ _) = retry_after (wait window now oldest)

-- The rest of `check` after the purge.
unfoldable pub decide_hit : ℕ → ℕ → ℕ → List ℕ → Verdict × List ℕ
decide_hit max_requests window now bucket =
    if leb max_requests (length bucket)
    then (refuse window now bucket, bucket)
    else (allowed, bucket ++ now ∷ [])

unfoldable pub admit : ℕ → ℕ → ℕ → List ℕ → Verdict × List ℕ
admit max_requests window now bucket = decide_hit max_requests window now (purge window now bucket)
