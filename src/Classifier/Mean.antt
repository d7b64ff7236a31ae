-- ===== src/Classifier/Mean.antt =====
-- What the classifier's mean interval is.
use honeypot_m1spro.Base.{
  ℕ, suc, ◌-◌, ◌≤◌, ◌≡◌, refl, inl, inr, List, [], ◌∷◌, map, arith, leb, leb→le, Bool-cases, length,
}
use honeypot_m1spro.Classifier.{
  insert_time, sort_times, intervals, last_time, span, sum, features, SessionEvent,
}

-- A list of times in order, none before the given one.
abbrev pub AscendingFrom : ℕ → List ℕ → Type 0
AscendingFrom t [] = Unit
AscendingFrom t (u ∷ us) = (t ≤ u) × AscendingFrom u us

insert_time-Ascending :
    (a t : ℕ) (us : List ℕ) → a ≤ t → AscendingFrom a us → AscendingFrom a (insert_time t us)
unfolding insert_time
insert_time-Ascending a t [] h k = (h, tt)
insert_time-Ascending a t (u ∷ us) h (here, more) = elim (Bool-cases (leb t u)) [
  | inl before ↦ rw (before, AscendingFrom) (h, (leb→le t u before, more))
  | inr after ↦ rw (after, AscendingFrom) (here, insert_time-Ascending u t us (ground arith) more)
]

sort_times-Ascending : (ts : List ℕ) → AscendingFrom 0 (sort_times ts)
unfolding sort_times
sort_times-Ascending [] = tt
sort_times-Ascending (t ∷ ts) =
    insert_time-Ascending 0 t (sort_times ts) (omega arith) (sort_times-Ascending ts)

length-insert_time : (t : ℕ) (us : List ℕ) → length (insert_time t us) ≡ suc (length us)
unfolding insert_time
length-insert_time t [] = refl
length-insert_time t (u ∷ us) = ground (arith, length-insert_time t us)

length-sort_times : (ts : List ℕ) → length (sort_times ts) ≡ length ts
unfolding sort_times
length-sort_times [] = refl
length-sort_times (t ∷ ts) =
    omega (arith, length-insert_time t (sort_times ts), length-sort_times ts)

last_time-ge : (t : ℕ) (us : List ℕ) → AscendingFrom t us → t ≤ last_time t us
unfolding last_time
last_time-ge t [] h = omega arith
last_time-ge t (u ∷ us) (here, more) = omega (arith, last_time-ge u us more)

-- The intervals of times in order add up to the span from the first to the last.
sum-intervals :
    (t : ℕ) (us : List ℕ) → AscendingFrom t us → sum (intervals (t ∷ us)) ≡ span (t ∷ us)
unfolding sum intervals span last_time
sum-intervals t [] h = omega arith
sum-intervals t (u ∷ us) (here, more) =
    omega (arith, sum-intervals u us more, last_time-ge u us more)

length-intervals : (t : ℕ) (us : List ℕ) → length (intervals (t ∷ us)) ≡ length us
unfolding intervals
length-intervals t [] = refl
length-intervals t (u ∷ us) = omega (arith, length-intervals u us)

pub length-map : {A B : Type 0} (f : A → B) (xs : List A) → length (map f xs) ≡ length xs
length-map f [] = refl
length-map f (x ∷ xs) = omega (arith, length-map f xs)

sorted_facts :
    (us : List ℕ)
    → AscendingFrom 0 us
    → (sum (intervals us) ≡ span us) × (length (intervals us) ≡ length us - 1)
unfolding sum intervals span
sorted_facts [] h = (refl, omega arith)
sorted_facts (u ∷ us) (_, more) = (sum-intervals u us more, omega (arith, length-intervals u us))

-- The mean interval of a session is its duration over the number of its events less one: the
-- intervals add up to the duration, and there are as many as events but for the first.
pub features-mean :
    (events : List SessionEvent)
    → ((features events).interval_total ≡ (features events).duration)
      × ((features events).n_intervals ≡ (features events).n_events - 1)
unfolding features
features-mean events =
    let times : List ℕ = map (λ e. e.timestamp) events in
    let (total, count) = sorted_facts (sort_times times) (sort_times-Ascending times) in
    (total, omega (arith, count, length-sort_times times, length-map (λ e. e.timestamp) events))
