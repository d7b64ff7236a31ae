-- ===== src/RateLimit/Window.antt =====
-- What the limiter promises over a whole run: the bound on every window, the meaning of
-- `Retry-After`, and the independence of the keys.
use honeypot_m1spro.Base.{
  All, ◌∙◌, sym, ap, dec_lt, lookup, lookup-insert, ℕ, ◌+◌, ◌*◌, ◌≤◌, ◌<◌, String, ◌≡◌, refl, inl,
  inr, Bool, true, false, ◌&&◌, List, [], ◌∷◌, arith, ◌==◌, eq_iff, eq_refl, if◌then◌else◌,
  Bool-cases, length,
}
use honeypot_m1spro.RateLimit.Bucket.{
  ticks, purge, refuse, decide_hit, admit, Verdict, allowed, retry_after,
}
use honeypot_m1spro.RateLimit.Bucket.Laws.{
  count_in, count_in-le-length, count_in-append, count_in-purge, length-admit, admit-later,
}
use honeypot_m1spro.RateLimit.{bucket_of, new_limiter, check, Limiter}

abbrev is_allowed : Verdict → Bool
is_allowed allowed = true
is_allowed _ = false

-- The times at which the checks of `key` were allowed in a run, newest first, before `granted`.
pub grants : String → Limiter → List ℕ → List (String × ℕ) → List ℕ
grants key l granted [] = granted
grants key l granted ((j, now) ∷ hits) =
    let (verdict, l') = check l j now in
    grants key l' (if j == key && is_allowed verdict then now ∷ granted else granted) hits

-- The monotonic clock: no check is made before the one that precedes it.
abbrev Monotone : ℕ → List (String × ℕ) → Type 0
Monotone now [] = Unit
Monotone now ((_, t) ∷ hits) = (now ≤ t) × Monotone t hits

-- What a bucket knows of the grants so far, at the time of the last check.
record Tracks (m w now : ℕ) (granted bucket : List ℕ) : Type 0 where
  bounded : (t : ℕ) → count_in w t granted ≤ m
  agrees : (t : ℕ) → now ≤ t → count_in w t granted ≡ count_in w t bucket
  small : length bucket ≤ m

Tracks-later :
    {m w now later : ℕ} {granted bucket : List ℕ}
    → now ≤ later
    → Tracks m w now granted bucket
    → Tracks m w later granted bucket
Tracks-later h k = record {
  bounded = k.bounded;
  agrees = λ t p. k.agrees t (omega arith);
  small = k.small;
}

granted_after : Verdict → ℕ → List ℕ → List ℕ
granted_after verdict now granted = if is_allowed verdict then now ∷ granted else granted

module _ (m w now : ℕ) (granted bucket : List ℕ) (k : Tracks m w now granted bucket) where
  count_in-granted_after :
      (t : ℕ)
      → now ≤ t
      → count_in w t (granted_after (admit m w now bucket).0 now granted)
        ≡ count_in w t (admit m w now bucket).1
  unfolding granted_after admit decide_hit refuse
  count_in-granted_after t h = ground (
    arith,
    k.agrees t h,
    count_in-purge w now t bucket h,
    count_in-append w t (purge w now bucket) (now ∷ []),
  )

  bounded_before :
      (t : ℕ) → t < now → count_in w t (granted_after (admit m w now bucket).0 now granted) ≤ m
  unfolding granted_after admit decide_hit refuse
  bounded_before t h = ground (arith, k.bounded t)

  -- One check keeps the bucket in step with the grants.
  admit-Tracks :
      Tracks m w now (granted_after (admit m w now bucket).0 now granted) (admit m w now bucket).1
  admit-Tracks = record {
    bounded = λ t. elim (dec_lt t now) [
      | yes before ↦ bounded_before t before
      | no after ↦ omega (
        arith,
        count_in-granted_after t (omega arith),
        count_in-le-length w t (admit m w now bucket).1,
        length-admit m w now bucket k.small,
      )
    ];
    agrees = count_in-granted_after;
    small = length-admit m w now bucket k.small;
  }

-- The checks of another key leave a bucket alone.
bucket_of-check :
    (l : Limiter) (j key : String) (now : ℕ)
    → bucket_of key (check l j now).1.hits ≡ (
        if j == key
        then (admit l.max_requests l.window now (bucket_of key l.hits)).1
        else bucket_of key l.hits)
unfolding check bucket_of
bucket_of-check l j key now =
    let bucket : List ℕ = (admit l.max_requests l.window now (bucket_of j l.hits)).1 in
    ground (arith, lookup-insert j key bucket l.hits, eq_iff j key)

verdict-check :
    (l : Limiter) (j : String) (now : ℕ)
    → (check l j now).0 ≡ (admit l.max_requests l.window now (bucket_of j l.hits)).0
unfolding check
verdict-check l j now = refl

-- One check of any key keeps the bucket of `key` in step.
check-Tracks :
    (key j : String) (now : ℕ) (l : Limiter) (granted : List ℕ)
    → Tracks l.max_requests l.window now granted (bucket_of key l.hits)
    → Tracks l.max_requests l.window now
        (if j == key && is_allowed (check l j now).0 then now ∷ granted else granted)
        (bucket_of key (check l j now).1.hits)
check-Tracks key j now l granted k = elim (Bool-cases (j == key)) [
  | inl same ↦
      rw (bucket_of-check l j key now, verdict-check l j now, same, (eq_iff j key).0 same)
        (unfold granted_after in admit-Tracks l.max_requests l.window now granted _ k)
  | inr other ↦ rw (bucket_of-check l j key now, other) k
]

grants-Tracks :
    (key : String) (now : ℕ) (l : Limiter) (granted : List ℕ) (hits : List (String × ℕ))
    → Monotone now hits
    → Tracks l.max_requests l.window now granted (bucket_of key l.hits)
    → (t : ℕ) → count_in l.window t (grants key l granted hits) ≤ l.max_requests
unfolding grants check
grants-Tracks key now l granted [] h k = k.bounded
grants-Tracks key now l granted ((j, at) ∷ hits) (h, hs) k =
    unfold check in
    grants-Tracks key at (check l j at).1 _ hits hs
      (check-Tracks key j at l granted (Tracks-later h k))

-- Over any run of checks of a new limiter, at most `max_requests` checks of one key are allowed
-- within any window of `window_seconds` seconds, wherever the window ends.
pub check-window_bound :
    (max_requests window_seconds : ℕ) (key : String) (hits : List (String × ℕ))
    → Monotone 0 hits
    → (t : ℕ)
    → count_in window_seconds t (grants key (new_limiter max_requests window_seconds) [] hits)
      ≤ max_requests
unfolding new_limiter bucket_of lookup
check-window_bound m w key hits ordered =
    grants-Tracks key 0 (new_limiter m w) [] hits ordered
      record { bounded = λ t. omega arith; agrees = λ t h. refl; small = omega arith }

-- The limiter after some checks.
abbrev pub after : Limiter → List (String × ℕ) → Limiter
after l [] = l
after l ((j, now) ∷ hits) = after (check l j now).1 hits

-- No check is of a key.
abbrev pub IsOfOthers : String → List (String × ℕ) → Type 0
IsOfOthers key hits = All (λ h. (h.0 == key) ≡ false) hits

after-settings :
    (l : Limiter) (hits : List (String × ℕ))
    → ((after l hits).max_requests ≡ l.max_requests) × ((after l hits).window ≡ l.window)
unfolding check
after-settings l [] = (refl, refl)
after-settings l ((j, now) ∷ hits) = after-settings (check l j now).1 hits

length-check :
    (l : Limiter) (j key : String) (now : ℕ)
    → length (bucket_of key l.hits) ≤ l.max_requests
    → length (bucket_of key (check l j now).1.hits) ≤ (check l j now).1.max_requests
length-check l j key now small = rw (bucket_of-check l j key now) (elim (Bool-cases (j == key)) [
  | inl same ↦
      rw same
        (unfold check in length-admit l.max_requests l.window now (bucket_of key l.hits) small)
  | inr other ↦ rw other (unfold check in small)
])

-- A bucket holds at most `max_requests` hits.
length-after :
    (l : Limiter) (key : String) (hits : List (String × ℕ))
    → length (bucket_of key l.hits) ≤ l.max_requests
    → length (bucket_of key (after l hits).hits) ≤ (after l hits).max_requests
length-after l key [] small = small
length-after l key ((j, now) ∷ hits) small =
    length-after (check l j now).1 key hits (length-check l j key now small)

bucket_of-after :
    (l : Limiter) (key : String) (hits : List (String × ℕ))
    → IsOfOthers key hits
    → bucket_of key (after l hits).hits ≡ bucket_of key l.hits
bucket_of-after l key [] h = refl
bucket_of-after l key ((j, now) ∷ hits) (other, more) =
    bucket_of-after (check l j now).1 key hits more ∙ rw (bucket_of-check l j key now, other) refl

-- After any checks of a new limiter, a refused caller that waits for the announced number of seconds
-- is let in, if only checks of other keys came between.
pub retry_after_suffices :
    (max_requests window_seconds : ℕ) (before others : List (String × ℕ)) (key : String)
    (now later n : ℕ)
    → let l = after (new_limiter max_requests window_seconds) before in
      (check l key now).0 ≡ retry_after n
      → IsOfOthers key others
      → now + n * ticks ≤ later
      → (check (after (check l key now).1 others) key later).0 ≡ allowed
retry_after_suffices m w before others key now later n refused apart waited =
    let l = after (new_limiter m w) before in
    let l' = (check l key now).1 in
    let small : length (bucket_of key l.hits) ≤ l.max_requests =
      length-after (new_limiter m w) key before
        (unfold new_limiter bucket_of lookup in omega arith) in
    let (same_max, same_window) = after-settings l' others in
    let let_in : (admit l.max_requests l.window later (bucket_of key l'.hits)).0 ≡ allowed =
      rw (bucket_of-check l key key now, eq_refl key)
        (admit-later l.max_requests l.window now later n _ small
          (sym (verdict-check l key now) ∙ refused) waited) in
    verdict-check (after l' others) key later
    ∙ ap (λ b. (admit (after l' others).max_requests (after l' others).window later b).0)
        (bucket_of-after l' key others apart)
    ∙ ap (λ m. (admit m (after l' others).window later (bucket_of key l'.hits)).0) same_max
    ∙ ap (λ w. (admit l'.max_requests w later (bucket_of key l'.hits)).0) same_window
    ∙ unfold check in let_in
