-- ===== src/Replay/Shift.antt =====
-- analyzer/classifier.py: a session is labelled alike whenever it starts.
use honeypot_m1spro.Base.{
  ℕ, suc, ◌+◌, ◌≡◌, refl, ap, ◌∙◌, Bool, ◌||◌, List, [], ◌∷◌, map, arith, length, any, select,
}
use honeypot_m1spro.Classifier.{
  insert_time, sort_times, intervals, last_time, span, is_type, features, priority_order,
  first_match, classify_session, SessionEvent,
}

abbrev pub shift : ℕ → SessionEvent → SessionEvent
shift k e = record e { timestamp = k + e.timestamp }

abbrev later_times : ℕ → List ℕ → List ℕ
later_times k [] = []
later_times k (t ∷ ts) = (k + t) ∷ later_times k ts

times-shift :
    (k : ℕ) (es : List SessionEvent)
    → map (λ (e : SessionEvent). e.timestamp) (map (shift k) es)
      ≡ later_times k (map (λ (e : SessionEvent). e.timestamp) es)
times-shift k [] = refl
times-shift k (e ∷ es) = ap (λ ts. (k + e.timestamp) ∷ ts) (times-shift k es)

insert_time-later :
    (k t : ℕ) (ts : List ℕ)
    → insert_time (k + t) (later_times k ts) ≡ later_times k (insert_time t ts)
unfolding insert_time
insert_time-later k t [] = refl
insert_time-later k t (u ∷ ts) = ground (arith, insert_time-later k t ts)

sort_times-later :
    (k : ℕ) (ts : List ℕ) → sort_times (later_times k ts) ≡ later_times k (sort_times ts)
unfolding sort_times
sort_times-later k [] = refl
sort_times-later k (t ∷ ts) =
    ap (insert_time (k + t)) (sort_times-later k ts) ∙ insert_time-later k t (sort_times ts)

intervals-later : (k : ℕ) (ts : List ℕ) → intervals (later_times k ts) ≡ intervals ts
unfolding intervals
intervals-later k [] = refl
intervals-later k (t ∷ []) = refl
intervals-later k (t ∷ u ∷ ts) = ground (arith, intervals-later k (u ∷ ts))

last_time-later :
    (k t : ℕ) (ts : List ℕ) → last_time (k + t) (later_times k ts) ≡ k + last_time t ts
unfolding last_time
last_time-later k t [] = refl
last_time-later k t (u ∷ ts) = last_time-later k u ts

span-later : (k : ℕ) (ts : List ℕ) → span (later_times k ts) ≡ span ts
unfolding span
span-later k [] = refl
span-later k (t ∷ ts) = omega (arith, last_time-later k t ts)

-- Nothing else of a session depends on the time.
module _ {B : Type 0} (p : SessionEvent → Bool) (g : SessionEvent → B) where
  select-shift :
      (k : ℕ)
      → ((e : SessionEvent) → p (shift k e) ≡ p e)
      → ((e : SessionEvent) → g (shift k e) ≡ g e)
      → (es : List SessionEvent) → map g (select p (map (shift k) es)) ≡ map g (select p es)
  select-shift k hp hg [] = refl
  select-shift k hp hg (e ∷ es) = ground (arith, hp e, hg e, select-shift k hp hg es)

length-select-shift :
    (p : SessionEvent → Bool) (k : ℕ)
    → ((e : SessionEvent) → p (shift k e) ≡ p e)
    → (es : List SessionEvent) → length (select p (map (shift k) es)) ≡ length (select p es)
length-select-shift p k hp [] = refl
length-select-shift p k hp (e ∷ es) = ground (arith, hp e, length-select-shift p k hp es)

any-shift :
    (p : SessionEvent → Bool) (k : ℕ)
    → ((e : SessionEvent) → p (shift k e) ≡ p e)
    → (es : List SessionEvent) → any p (map (shift k) es) ≡ any p es
any-shift p k hp [] = refl
any-shift p k hp (e ∷ es) = ground (arith, hp e, any-shift p k hp es)

length-shift : (k : ℕ) (es : List SessionEvent) → length (map (shift k) es) ≡ length es
length-shift k [] = refl
length-shift k (e ∷ es) = ap suc (length-shift k es)

sorted-shift :
    (k : ℕ) (es : List SessionEvent)
    → sort_times (map (λ (e : SessionEvent). e.timestamp) (map (shift k) es))
      ≡ later_times k (sort_times (map (λ (e : SessionEvent). e.timestamp) es))
sorted-shift k es =
    ap sort_times (times-shift k es)
    ∙ sort_times-later k (map (λ (e : SessionEvent). e.timestamp) es)

features-shift : (k : ℕ) (es : List SessionEvent) → features (map (shift k) es) ≡ features es
unfolding features
features-shift k es =
    rw
      (
        sorted-shift k es,
        span-later k (sort_times (map (λ (e : SessionEvent). e.timestamp) es)),
        intervals-later k (sort_times (map (λ (e : SessionEvent). e.timestamp) es)),
        length-shift k es,
        length-select-shift (is_type "auth_attempt") k (λ e. refl) es,
        select-shift (is_type "auth_attempt") (λ e. e.password) k (λ e. refl) (λ e. refl) es,
        select-shift (is_type "command") (λ e. e.command) k (λ e. refl) (λ e. refl) es,
        any-shift (λ e. is_type "command" e || is_type "auth_success" e) k (λ e. refl) es,
        any-shift (λ e. e.known_scanner) k (λ e. refl) es,
      )
      refl

-- The label of a session does not change when all of its times move by the same span.
pub classify_session-shift :
    (k : ℕ) (es : List SessionEvent) → classify_session (map (shift k) es) ≡ classify_session es
unfolding classify_session
classify_session-shift k [] = refl
classify_session-shift k (e ∷ es) = ap (first_match priority_order) (features-shift k (e ∷ es))
