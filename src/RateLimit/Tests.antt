-- ===== src/RateLimit/Tests.antt =====
-- The limiter on concrete runs; times are in microseconds.
use honeypot_m1spro.Base.{lookup, insert, ℕ, ◌≤◌, String, ◌≡◌, refl, List, [], ◌∷◌, arith}
use honeypot_m1spro.RateLimit.Bucket.{
  purge, wait, refuse, decide_hit, admit, Verdict, allowed, index_error, retry_after,
}
use honeypot_m1spro.RateLimit.Bucket.Laws.{count_in}
use honeypot_m1spro.RateLimit.Window.{grants, after, check-window_bound, retry_after_suffices}
use honeypot_m1spro.RateLimit.{
  bucket_of, new_limiter, check, client_ip, gate_of, rate_limit_dependency, Limiter,
}

limiter : Unit {0}
unfolding check admit purge decide_hit refuse wait gate_of bucket_of new_limiter client_ip lookup
    insert rate_limit_dependency
limiter = tt

-- The verdicts of a run, the first one first.
abbrev verdicts : Limiter → List (String × ℕ) → List Verdict
verdicts l [] = []
verdicts l ((key, now) ∷ hits) = let (verdict, l') = check l key now in verdict ∷ verdicts l' hits

abbrev hits : List (String × ℕ)
hits =
    ("a", 0)
    ∷ ("a", 1000000)
    ∷ ("b", 1500000)
    ∷ ("a", 2500000)
    ∷ ("a", 10000000)
    ∷ ("a", 10500000)
    ∷ ("a", 11000000)
    ∷ []

-- Two checks in ten seconds: the third waits, another key does not, and a purged hit makes room.
run_of_hits :
    verdicts (new_limiter 2 10) hits
    ≡ allowed ∷ allowed ∷ allowed ∷ retry_after 8 ∷ allowed ∷ retry_after 1 ∷ allowed ∷ []
unfolding limiter
run_of_hits = refl

-- A limiter of no requests crashes on its first check.
no_requests : (check (new_limiter 0 10) "a" 0).0 ≡ index_error
unfolding limiter
no_requests = refl

check-window_bound_example : count_in 10 12000000 (grants "a" (new_limiter 2 10) [] hits) ≤ 2
check-window_bound_example = check-window_bound 2 10 "a" hits (omega arith) 12000000

-- A hit before, and a check of another key between.
abbrev full : Limiter
full = after (new_limiter 1 10) (("a", 500000) ∷ [])

retry_after_suffices_example :
    (check (after (check full "a" 2500000).1 (("b", 3000000) ∷ [])) "a" 11500000).0 ≡ allowed
unfolding limiter
retry_after_suffices_example =
    retry_after_suffices 1 10 (("a", 500000) ∷ []) (("b", 3000000) ∷ []) "a" 2500000 11500000 9 refl
      (refl, tt) (omega arith)
