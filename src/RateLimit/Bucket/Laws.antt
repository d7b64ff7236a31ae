-- ===== src/RateLimit/Bucket/Laws.antt =====
-- One bucket of the limiter: what a purge keeps, and how long a refused caller has to wait.
use honeypot_m1spro.Base.{
  ℕ, ◌+◌, ◌*◌, ◌≤◌, ◌<◌, ◌≡◌, refl, ◌≢◌, ◌&&◌, List, [], ◌∷◌, ◌++◌, arith, ltb, leb, if◌then◌else◌,
  length, length-append,
}
use honeypot_m1spro.RateLimit.Bucket.{
  ticks, purge, wait, refuse, decide_hit, admit, allowed, index_error, retry_after,
}

-- How many of the hits lie in the window that ends at `t`: hits in (t - window, t].
abbrev pub count_in : ℕ → ℕ → List ℕ → ℕ
count_in window t [] = 0
count_in window t (s ∷ hits) =
    (if leb s t && ltb t (s + window * ticks) then 1 else 0) + count_in window t hits

pub count_in-le-length : (w t : ℕ) (hits : List ℕ) → count_in w t hits ≤ length hits
count_in-le-length w t [] = omega arith
count_in-le-length w t (s ∷ hits) = ground (arith, count_in-le-length w t hits)

pub count_in-append :
    (w t : ℕ) (xs ys : List ℕ) → count_in w t (xs ++ ys) ≡ count_in w t xs + count_in w t ys
count_in-append w t [] ys = omega arith
count_in-append w t (s ∷ xs) ys = omega (arith, count_in-append w t xs ys)

-- The purge drops no hit of a window that ends now or later.
pub count_in-purge :
    (w now t : ℕ) (hits : List ℕ) → now ≤ t → count_in w t (purge w now hits) ≡ count_in w t hits
unfolding purge
count_in-purge w now t [] h = refl
count_in-purge w now t (s ∷ hits) h = ground (arith, count_in-purge w now t hits h)

length-purge : (w now : ℕ) (hits : List ℕ) → length (purge w now hits) ≤ length hits
unfolding purge
length-purge w now [] = omega arith
length-purge w now (s ∷ hits) = ground (arith, length-purge w now hits)

-- After the announced wait the oldest hit has left the window.
wait_enough : (w now oldest : ℕ) → oldest + w * ticks ≤ now + wait w now oldest * ticks
unfolding wait
wait_enough w now oldest = ground arith

-- A bucket that never exceeds its bound keeps to it.
pub length-admit :
    (m w now : ℕ) (hits : List ℕ) → length hits ≤ m → length (admit m w now hits).1 ≤ m
unfolding admit decide_hit
length-admit m w now hits h =
    ground (arith, length-purge w now hits, length-append {0} (purge w now hits) (now ∷ []))

-- With a positive bound the deque is never empty when `bucket[0]` is read.
admit-ne-index_error : (m w now : ℕ) (hits : List ℕ) → 0 < m → (admit m w now hits).0 ≢ index_error
unfolding admit decide_hit refuse
admit-ne-index_error m w now hits h = ground arith

-- A purged bucket that refuses a hit has room after the announced wait.
decide_hit-later :
    (m w now later n : ℕ) (hits : List ℕ)
    → length hits ≤ m
    → (decide_hit m w now hits).0 ≡ retry_after n
    → now + n * ticks ≤ later
    → (admit m w later (decide_hit m w now hits).1).0 ≡ allowed
unfolding admit decide_hit refuse purge
decide_hit-later m w now later n [] small refused waited = ground arith
decide_hit-later m w now later n (oldest ∷ hits) small refused waited =
    ground (arith, wait_enough w now oldest, length-purge w later hits)

pub admit-later :
    (m w now later n : ℕ) (hits : List ℕ)
    → length hits ≤ m
    → (admit m w now hits).0 ≡ retry_after n
    → now + n * ticks ≤ later
    → (admit m w later (admit m w now hits).1).0 ≡ allowed
unfolding admit
admit-later m w now later n hits small refused waited =
    unfold admit in
    decide_hit-later m w now later n (purge w now hits) (omega (arith, length-purge w now hits))
      refused waited
