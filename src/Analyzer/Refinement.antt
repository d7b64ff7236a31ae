-- ===== src/Analyzer/Refinement.antt =====
-- analyzer/api.py: the table of events implements a map from identifiers to events.
use mathlib.Core.Path.{fun_ext}
use honeypot_m1spro.Base.{
  fetch_one, update_where, ℕ, String, ◌≡◌, refl, sym, ap, ◌∙◌, inl, inr, Bool, true, ◌&&◌, Option,
  none, some, List, [], ◌∷◌, ◌++◌, arith, ◌==◌, eq_iff, if◌then◌else◌, Bool-cases, any,
}
use honeypot_m1spro.Classifier.{Label}
use honeypot_m1spro.Events.{Event}
use honeypot_m1spro.Analyzer.{Enrichment, columns_of, row_of, Columns, Row}
use honeypot_m1spro.Analyzer.Enrichers.{enrich, Outside}
use honeypot_m1spro.Analyzer.Store.{
  insert_new, in_session, label, reclassify, classify_rows, taken, ingest-taken, ingest-refused,
  ingest, ingest_all, Analyzer, Incoming,
}
use honeypot_m1spro.Analyzer.Ingest.{id_of}

-- The abstract table: what is known under an identifier.
abbrev pub Known : Type 0
Known = String → Option Columns

abbrev pub nothing : Known
nothing id = none

-- The abstract ingestion: the first event under an identifier stays.
abbrev keep_first : Event → Option Columns → Option Columns
keep_first e none = some (columns_of e)
keep_first e (some c) = some c

abbrev pub record_event : Outside → Incoming → Known → Known
record_event out r known id =
    if taken out r && r.event.event_id == id then keep_first r.event (known id) else known id

abbrev pub record_all : Outside → List (ℕ × Incoming) → Known → Known
record_all out [] known = known
record_all out ((_, r) ∷ rs) known = record_all out rs (record_event out r known)

-- What a table knows.
abbrev columns_or_none : Option Row → Option Columns
columns_or_none none = none
columns_or_none (some r) = some r.event

abbrev pub known_to : List Row → Known
known_to rows id = columns_or_none (fetch_one (λ r. id_of r == id) rows)

known_to-update :
    (p : Row → Bool) (l : Label) (rows : List Row) (id : String)
    → known_to (update_where p (label l) rows) id ≡ known_to rows id
unfolding update_where fetch_one
known_to-update p l [] id = refl
known_to-update p l (r ∷ rows) id = ground (arith, known_to-update p l rows id)

known_to-reclassify :
    (session : String) (c : Option Label) (rows : List Row) (id : String)
    → known_to (reclassify session c rows) id ≡ known_to rows id
unfolding reclassify
known_to-reclassify session none rows id = refl
known_to-reclassify session (some l) rows id = known_to-update (in_session session) l rows id

known_to-append :
    (rows : List Row) (e : Event) (enrichment : Enrichment) (c : Option Label) (id : String)
    → known_to (rows ++ row_of e enrichment c ∷ []) id
      ≡ (if e.event_id == id then keep_first e (known_to rows id) else known_to rows id)
unfolding fetch_one row_of
known_to-append [] e enrichment c id = unfold columns_of in ground arith
known_to-append (r ∷ rows) e enrichment c id =
    ground (arith, known_to-append rows e enrichment c id)

-- A table that holds the identifier keeps its event.
known_to-there :
    (rows : List Row) (e : Event) (id : String)
    → any (λ r. r.event.event_id == e.event_id) rows ≡ true
    → (e.event_id == id) ≡ true
    → keep_first e (known_to rows id) ≡ known_to rows id
unfolding fetch_one
known_to-there [] e id h same = cc
known_to-there (r ∷ rows) e id h same = ground (
  arith,
  (eq_iff e.event_id id).0 same,
  λ (k : any (λ r. r.event.event_id == e.event_id) rows ≡ true). known_to-there rows e id k same,
)

known_to-insert_new :
    (e : Event) (enrichment : Enrichment) (c : Option Label) (rows : List Row) (id : String)
    → known_to (insert_new e enrichment c rows) id
      ≡ (if e.event_id == id then keep_first e (known_to rows id) else known_to rows id)
unfolding insert_new
known_to-insert_new e enrichment c rows id =
    elim (Bool-cases (any (λ r. r.event.event_id == e.event_id) rows)) [
      | inr fresh ↦ rw fresh (known_to-append rows e enrichment c id)
      | inl there ↦ elim (Bool-cases (e.event_id == id)) [
        | inl same ↦ rw (there, same) (sym (known_to-there rows e id there same))
        | inr other ↦ rw (there, other) refl
      ]
    ]

known_to-ingest :
    (out : Outside) (now : ℕ) (r : Incoming) (s : Analyzer)
    → known_to (ingest out now r s).1.events ≡ record_event out r (known_to s.events)
known_to-ingest out now r s = fun_ext λ id. elim (Bool-cases (taken out r)) [
  | inr e ↦ ap (λ rows. known_to rows id) (ingest-refused out now r s e) ∙ rw e refl
  | inl e ↦
      let found = enrich out now r.event.fields.src_ip r.provided s.abuse in
      let rows = insert_new r.event found.0 none s.events in
      let session = r.event.fields.session_id in
      ap (λ rows. known_to rows id) (ingest-taken out now r s e)
      ∙ known_to-reclassify session (classify_rows session rows) rows id
      ∙ known_to-insert_new r.event found.0 none s.events id
      ∙ rw e refl
]

-- Ingestion refines the abstract map: after any requests, whatever the enrichers answer, the table
-- knows under each identifier the event that it knew before, or else the first one sent with it that
-- conforms and that the database can store.
pub ingest_all-refines :
    (out : Outside) (rs : List (ℕ × Incoming)) (s : Analyzer)
    → known_to (ingest_all out rs s).events ≡ record_all out rs (known_to s.events)
unfolding ingest_all
ingest_all-refines out [] s = refl
ingest_all-refines out ((now, r) ∷ rs) s =
    ingest_all-refines out rs (ingest out now r s).1
    ∙ ap (record_all out rs) (known_to-ingest out now r s)
