-- ===== src/Analyzer/Delivery.antt =====
-- analyzer/shipper.py and analyzer/api.py: events that are sent again after the offsets were lost.
use honeypot_m1spro.Base.{
  fetch_one, ℕ, ◌+◌, String, ◌≡◌, refl, sym, subst, ◌∙◌, ◌⊎◌, inl, inr, Bool, true, false, List, [],
  ◌∷◌, arith, ◌==◌, eq_refl, Bool-cases, is_some, any, All,
}
use honeypot_m1spro.Analyzer.{Row}
use honeypot_m1spro.Analyzer.Enrichers.{Outside}
use honeypot_m1spro.Analyzer.Store.{taken, ingest-refused, ingest, ingest_all, Analyzer, Incoming}
use honeypot_m1spro.Analyzer.Ingest.{ingest_all-IsConsistent, ingest_again, IsConsistent}
use honeypot_m1spro.Analyzer.Refinement.{
  Known, record_event, record_all, known_to, ingest_all-refines,
}

-- The same requests, later.
abbrev pub later_by : ℕ → List (ℕ × Incoming) → List (ℕ × Incoming)
later_by delay [] = []
later_by delay ((now, r) ∷ rs) = (now + delay, r) ∷ later_by delay rs

abbrev holds : String → List Row → Bool
holds id rows = any (λ row. row.event.event_id == id) rows

holds-known_to : (id : String) (rows : List Row) → holds id rows ≡ is_some (known_to rows id)
unfolding fetch_one
holds-known_to id [] = refl
holds-known_to id (r ∷ rows) = ground (arith, holds-known_to id rows)

-- What is known stays known, and an event that is taken is known.
record_all-keeps :
    (out : Outside) (rs : List (ℕ × Incoming)) (known : Known) (id : String)
    → is_some (known id) ≡ true
    → is_some (record_all out rs known id) ≡ true
record_all-keeps out [] known id h = h
record_all-keeps out ((now, r) ∷ rs) known id h =
    record_all-keeps out rs (record_event out r known) id (ground arith)

-- A request that the table has nothing to learn from.
abbrev IsSettled : Outside → List Row → Incoming → Type 0
IsSettled out rows r = (taken out r ≡ false) ⊎ (holds r.event.event_id rows ≡ true)

ingest-settled :
    (out : Outside) (now : ℕ) (r : Incoming) (s : Analyzer)
    → IsConsistent s.events
    → IsSettled out s.events r
    → (ingest out now r s).1.events ≡ s.events
ingest-settled out now r s h (inl bad) = ingest-refused out now r s bad
ingest-settled out now r s h (inr there) = ingest_again out now r s h there

ingest_all-settled :
    (out : Outside) (rs : List (ℕ × Incoming)) (s : Analyzer)
    → IsConsistent s.events
    → All (λ p. IsSettled out s.events p.1) rs
    → (ingest_all out rs s).events ≡ s.events
unfolding ingest_all
ingest_all-settled out [] s h k = refl
ingest_all-settled out ((now, r) ∷ rs) s h (here, more) =
    let next = (ingest out now r s).1 in
    let same : next.events ≡ s.events = ingest-settled out now r s h here in
    ingest_all-settled out rs next (subst IsConsistent (sym same) h)
      (subst (λ rows. All (λ p. IsSettled out rows p.1) rs) (sym same) more)
    ∙ same

-- Every request of a run is settled by its table.
run-settled :
    (out : Outside) (rs : List (ℕ × Incoming)) (known : Known)
    → All
        (λ p.
          (taken out p.1 ≡ false) ⊎ (is_some (record_all out rs known p.1.event.event_id) ≡ true))
        rs
run-settled out [] known = tt
run-settled out ((now, r) ∷ rs) known = (
  elim (Bool-cases (taken out r)) [
    | inr bad ↦ inl bad
    | inl good ↦
        inr (record_all-keeps out rs (record_event out r known) r.event.event_id (learnt good))
  ],
  run-settled out rs (record_event out r known),
)
  where
    learnt : taken out r ≡ true → is_some (record_event out r known r.event.event_id) ≡ true
    learnt good = ground (arith, good, eq_refl r.event.event_id)

later_by-IsSettled :
    (out : Outside) (delay : ℕ) (rows : List Row) (rs : List (ℕ × Incoming))
    → All (λ p. (taken out p.1 ≡ false) ⊎ (is_some (known_to rows p.1.event.event_id) ≡ true)) rs
    → All (λ p. IsSettled out rows p.1) (later_by delay rs)
later_by-IsSettled out delay rows [] h = tt
later_by-IsSettled out delay rows ((now, r) ∷ rs) (here, more) = (
  elim here [ inl bad ↦ inl bad | inr there ↦ inr (holds-known_to r.event.event_id rows ∙ there) ],
  later_by-IsSettled out delay rows rs more,
)

-- Sending all events again, at any later time and whatever the enrichers answer then, changes no row
-- of a consistent table.
pub reship_idle :
    (out : Outside) (delay : ℕ) (rs : List (ℕ × Incoming)) (s : Analyzer)
    → IsConsistent s.events
    → (ingest_all out (later_by delay rs) (ingest_all out rs s)).events
      ≡ (ingest_all out rs s).events
reship_idle out delay rs s h =
    let done = ingest_all out rs s in
    ingest_all-settled out (later_by delay rs) done (ingest_all-IsConsistent out rs s h) (
      later_by-IsSettled out delay done.events rs (
        subst
          (λ (known : Known).
            All (λ p. (taken out p.1 ≡ false) ⊎ (is_some (known p.1.event.event_id) ≡ true)) rs)
          (sym (ingest_all-refines out rs s)) (run-settled out rs (known_to s.events))))
