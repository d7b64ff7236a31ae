-- ===== src/Analyzer/Throttle.antt =====
-- analyzer/enrichers/abuseipdb.py: how often the API is asked.
use mathlib.Core.Option.{some-injective}
use honeypot_m1spro.Base.{
  lookup, lookup-insert, ℕ, ◌+◌, ◌-◌, ◌≤◌, ◌<◌, String, ◌≡◌, refl, sym, subst, ◌∙◌, ◌≢◌, ◌⊎◌, inl,
  inr, true, false, Option, none, some, List, [], ◌∷◌, arith, ◌==◌, eq_refl, ltb, Bool-cases,
  Option-cases, All, ==-false,
}
use honeypot_m1spro.Analyzer.{Enrichment}
use honeypot_m1spro.Analyzer.Enrichers.{
  second, cache_ttl, reputation, cached, call_time, score_or_zero, after_check, ask, abuse_lookup,
  Reputation, Outside, CacheRow, Abuse, Lookup,
}

-- The calls of the API in a run of lookups, each with the address and the time.
unfoldable pub calls : Outside → List (ℕ × String) → Abuse → List (String × ℕ)
unfolding abuse_lookup
calls out [] s = []
calls out ((now, ip) ∷ ls) s =
    let l = abuse_lookup out now ip s in
    let rest = calls out ls l.state in elim l.call [ none ↦ rest | some t ↦ (ip, t) ∷ rest ]

-- Each call comes at least a second, in microseconds, after the one before.
abbrev pub Spaced : ℕ → List (String × ℕ) → Type 0
Spaced last [] = Unit
Spaced last ((_, t) ∷ cs) = (last + 1000000 ≤ t) × Spaced t cs

-- A sleep is at least as long as it is asked to be, on a clock that is not set back meanwhile.
abbrev pub IsLasting : Outside → Type 0
IsLasting out = (now slept : ℕ) → now + slept ≤ out.wake now slept

call_time-ge :
    (out : Outside) (now : ℕ) (s : Abuse)
    → IsLasting out
    → s.last_call + second ≤ call_time out now s
unfolding call_time
call_time-ge out now s lasts = ground (arith, lasts now (s.last_call + second - now), lasts now 0)

-- A lookup that calls the API notes the time.
abbrev Called : Lookup → Abuse → Type 0
Called l s =
    ((l.call ≡ none) × (l.state.last_call ≡ s.last_call))
    ⊎ ((t : ℕ) × (l.call ≡ some t) × (s.last_call + second ≤ t) × (l.state.last_call ≡ t))

after_check-Called :
    (start : ℕ) (ip : String) (reply : Option Reputation × ℕ) (s : Abuse)
    → s.last_call + second ≤ start
    → Called (after_check start ip reply (record s { last_call = start })) s
after_check-Called start ip (none, took) s h = inr (start, refl, h, refl)
after_check-Called start ip (some found, took) s h = inr (start, refl, h, refl)

ask-Called :
    (out : Outside) (now : ℕ) (ip : String) (s : Abuse)
    → IsLasting out
    → Called (ask out now ip s) s
unfolding ask
ask-Called out now ip s lasts = elim (Bool-cases (out.api_key == "")) [
  | inl no_key ↦ rw (no_key, Called) (inl (refl, refl))
  | inr key ↦
      let start = call_time out now s in
      rw (key, Called)
        (after_check-Called start ip (out.check start ip) s (call_time-ge out now s lasts))
]

abuse_lookup-Called :
    (out : Outside) (now : ℕ) (ip : String) (s : Abuse)
    → IsLasting out
    → Called (abuse_lookup out now ip s) s
unfolding abuse_lookup
abuse_lookup-Called out now ip s lasts = elim (Option-cases (cached now ip s)) [
  | inr (answer, e) ↦ rw (e, Called, abuse_lookup) (inl (refl, refl))
  | inl e ↦ rw (e, Called, abuse_lookup) (ask-Called out now ip s lasts)
]

-- Over any run of lookups, whatever the API says and whenever they are made, the times of two successive
-- calls of the API, as the clock of the code reads them, are at least a second apart, if a sleep lasts as
-- long on that clock as it is asked to.
pub calls-Spaced :
    (out : Outside) (ls : List (ℕ × String)) (s : Abuse)
    → IsLasting out
    → Spaced s.last_call (calls out ls s)
unfolding calls
calls-Spaced out [] s lasts = tt
calls-Spaced out ((now, ip) ∷ ls) s lasts =
    let l = abuse_lookup out now ip s in
    let rest = calls-Spaced out ls l.state lasts in
    elim (abuse_lookup-Called out now ip s lasts) [
      | inl (e, same) ↦ rw (e, Spaced) (rw same at rest)
      | inr (t, e, late, same) ↦ rw (e, Spaced) (late, rw same at rest)
    ]

-- The cache holds an answer for the address that is fresh before a time.
abbrev IsFresh : ℕ → String → Abuse → Type 0
IsFresh until ip s =
    (row : CacheRow) × (lookup ip s.cache ≡ some row) × (until ≤ row.ts + cache_ttl)

IsFresh-cached :
    (until now : ℕ) (ip : String) (s : Abuse)
    → IsFresh until ip s
    → now < until
    → (answer : Enrichment) × (cached now ip s ≡ some answer)
unfolding cached
IsFresh-cached until now ip s (row, e, h) k =
    let fresh : ltb now (row.ts + cache_ttl) ≡ true = ground arith in
    (reputation row.score row.country, rw (e, fresh) refl)

after_check-IsFresh :
    (until start : ℕ) (ip other : String) (reply : Option Reputation × ℕ) (s : Abuse)
    → (other == ip) ≡ false
    → IsFresh until ip s
    → IsFresh until ip (after_check start other reply (record s { last_call = start })).state
after_check-IsFresh until start ip other (none, took) s apart h = h
after_check-IsFresh until start ip other (some found, took) s apart (row, e, h) =
    (row, lookup-insert other ip _ s.cache ∙ rw apart e, h)

ask-IsFresh :
    (out : Outside) (until now : ℕ) (ip other : String) (s : Abuse)
    → (other == ip) ≡ false
    → IsFresh until ip s
    → IsFresh until ip (ask out now other s).state
unfolding ask
ask-IsFresh out until now ip other s apart h = elim (Bool-cases (out.api_key == "")) [
  | inl no_key ↦ rw (no_key, IsFresh) h
  | inr key ↦
      let start = call_time out now s in
      rw (key, IsFresh) (after_check-IsFresh until start ip other (out.check start other) s apart h)
]

-- While it is fresh, a lookup keeps the entry, and asks for no other address than its own.
abuse_lookup-IsFresh :
    (out : Outside) (until now : ℕ) (ip other : String) (s : Abuse)
    → IsFresh until ip s
    → now < until
    → IsFresh until ip (abuse_lookup out now other s).state
      × ((other ≢ ip) ⊎ ((abuse_lookup out now other s).call ≡ none))
unfolding abuse_lookup
abuse_lookup-IsFresh out until now ip other s h k = elim (Option-cases (cached now other s)) [
  | inr (answer, e) ↦ rw (e, IsFresh, abuse_lookup) (h, inr refl)
  | inl e ↦
      let apart : other ≢ ip = λ same.
        let (answer, hit) = IsFresh-cached until now ip s h k in
        let miss : cached now ip s ≡ none = subst (λ a. cached now a s ≡ none) same e in cc in
      rw (e, IsFresh, abuse_lookup)
        (ask-IsFresh out until now ip other s (==-false other ip apart) h, inl apart)
]

calls-IsFresh :
    (out : Outside) (until : ℕ) (ip : String) (ls : List (ℕ × String)) (s : Abuse)
    → IsFresh until ip s
    → All (λ l. l.0 < until) ls
    → All (λ c. c.0 ≢ ip) (calls out ls s)
unfolding calls
calls-IsFresh out until ip [] s h k = tt
calls-IsFresh out until ip ((now, other) ∷ ls) s h (here, more) =
    let l = abuse_lookup out now other s in
    let (kept, asked) = abuse_lookup-IsFresh out until now ip other s h here in
    let rest = calls-IsFresh out until ip ls l.state kept more in
    elim (Option-cases l.call) [
      | inl e ↦ rw (e, All) rest
      | inr (t, e) ↦ elim asked [
        | inl apart ↦ rw (e, All) (apart, rest)
        | inr idle ↦ absurd (none_of idle e)
      ]
    ]
  where
    none_of : {t : ℕ} {o : Option ℕ} → o ≡ none → o ≡ some t → ⊥
    none_of e f = cc

after_check-call :
    (start : ℕ) (ip : String) (reply : Option Reputation × ℕ) (s : Abuse)
    → (after_check start ip reply s).call ≡ some start
after_check-call start ip (none, took) s = refl
after_check-call start ip (some found, took) s = refl

after_check_answered :
    (start at_time took : ℕ) (ip : String) (found : Reputation) (reply : Option Reputation × ℕ)
    (s : Abuse)
    → at_time ≡ start
    → reply ≡ (some found, took)
    → IsFresh (start + took + cache_ttl) ip (after_check at_time ip reply s).state
after_check_answered start at_time took ip found reply s same answered =
    rw (same, answered)
      (
        record {
          score = score_or_zero found.confidence;
          country = found.country_code;
          ts = start + took;
        },
        lookup-insert ip ip _ s.cache ∙ rw (eq_refl ip) refl,
        omega arith,
      )

ask_answered :
    (out : Outside) (now start took : ℕ) (ip : String) (found : Reputation) (s : Abuse)
    → (ask out now ip s).call ≡ some start
    → out.check start ip ≡ (some found, took)
    → IsFresh (start + took + cache_ttl) ip (ask out now ip s).state
unfolding ask
ask_answered out now start took ip found s called answered = elim (Bool-cases (out.api_key == "")) [
  | inl no_key ↦ absurd (idle (rw no_key at called))
  | inr key ↦ rw (key, IsFresh) (stored (call_time out now s) (rw key at called))
]
  where
    idle : none ≡ some start → ⊥
    idle e = cc

    stored :
        (at_time : ℕ)
        → (after_check at_time ip (out.check at_time ip) (record s { last_call = at_time })).call
          ≡ some start
        → IsFresh
            (start + took + cache_ttl)
            ip
            (after_check at_time ip (out.check at_time ip) (record s { last_call = at_time })).state
    stored at_time e =
        let same : at_time ≡ start =
          some-injective at_time start (sym (after_check-call at_time ip _ _) ∙ e) in
        let at_answer : out.check at_time ip ≡ (some found, took) = rw same answered in
        after_check_answered start at_time took ip found _ _ same at_answer

-- A call that is answered leaves a fresh entry.
answered-IsFresh :
    (out : Outside) (now start took : ℕ) (ip : String) (found : Reputation) (s : Abuse)
    → (abuse_lookup out now ip s).call ≡ some start
    → out.check start ip ≡ (some found, took)
    → IsFresh (start + took + cache_ttl) ip (abuse_lookup out now ip s).state
unfolding abuse_lookup
answered-IsFresh out now start took ip found s called answered =
    elim (Option-cases (cached now ip s)) [
      | inr (answer, e) ↦ absurd (idle (rw (e, abuse_lookup) at called))
      | inl e ↦
          rw (e, IsFresh, abuse_lookup)
            (ask_answered out now start took ip found s (rw (e, abuse_lookup) at called) answered)
    ]
  where
    idle : none ≡ some start → ⊥
    idle e = cc

-- An address that the API answered is not asked for again in the next 24 hours, whatever is looked
-- up.
pub abuse_lookup_once :
    (out : Outside) (now start took : ℕ) (ip : String) (found : Reputation) (s : Abuse)
    → (abuse_lookup out now ip s).call ≡ some start
    → out.check start ip ≡ (some found, took)
    → (ls : List (ℕ × String)) → All (λ l. l.0 < start + took + cache_ttl) ls
    → All (λ c. c.0 ≢ ip) (calls out ls (abuse_lookup out now ip s).state)
abuse_lookup_once out now start took ip found s called answered ls times =
    calls-IsFresh out (start + took + cache_ttl) ip ls _
      (answered-IsFresh out now start took ip found s called answered) times
