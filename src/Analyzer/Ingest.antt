-- ===== src/Analyzer/Ingest.antt =====
-- analyzer/api.py: the table that `POST /events` keeps, and requests that are sent again.
use honeypot_m1spro.Base.{
  subst, ℕ, String, ◌≡◌, refl, sym, ap, ◌∙◌, ◌≢◌, inl, inr, Bool, true, false, Option, none, some,
  List, [], ◌∷◌, ◌++◌, map, arith, ◌==◌, eq_iff, Bool-cases, any, select, All, All-append, Distinct,
  Distinct-update, Distinct-append, All-apart,
}
use honeypot_m1spro.Classifier.{classify_session, SessionEvent, Label}
use honeypot_m1spro.Events.{Event}
use honeypot_m1spro.Analyzer.{Enrichment, columns_of, row_of, Row}
use honeypot_m1spro.Analyzer.Enrichers.{enrich, Outside}
use honeypot_m1spro.Analyzer.Store.{
  insert_new, order_asc, in_session, session_events, session_event, label, reclassify,
  classify_rows, taken, stored_rows, ingest-taken, ingest-refused, ingest, ingest_all, Analyzer,
  Incoming,
}
use honeypot_m1spro.Analyzer.Labels.{
  classify_rows_lem, Labelled, reclassify_idle, reclassify-Labelled,
}

abbrev pub id_of : Row → String
id_of r = r.event.event_id

-- No two rows have one identifier, and every session bears the label that it has as a whole.
pub record IsConsistent (rows : List Row) : Type 0 where
  pub unique_ids : Distinct id_of rows
  pub labelled : Labelled rows

pub nil-IsConsistent : IsConsistent []
unfolding session_events order_asc classify_session
nil-IsConsistent = record { unique_ids = tt; labelled = λ id l e. tt }

insert_new-Distinct :
    (e : Event) (enrichment : Enrichment) (c : Option Label) (rows : List Row)
    → Distinct id_of rows
    → Distinct id_of (insert_new e enrichment c rows)
unfolding insert_new row_of columns_of
insert_new-Distinct e enrichment c rows h =
    elim (Bool-cases (any (λ r. r.event.event_id == e.event_id) rows)) [
      | inl there ↦ rw (there, Distinct) h
      | inr fresh ↦
          let apart : All (λ r. id_of r ≢ e.event_id) rows =
            All-apart (λ r. r.event.event_id == e.event_id) id_of e.event_id rows
              (λ r same. (eq_iff (id_of r) e.event_id).1 same) fresh in
          rw (fresh, Distinct) (Distinct-append id_of rows (row_of e enrichment c) h apart)
    ]

reclassify-Distinct :
    (id : String) (c : Option Label) (rows : List Row)
    → Distinct id_of rows
    → Distinct id_of (reclassify id c rows)
unfolding reclassify
reclassify-Distinct id none rows h = h
reclassify-Distinct id (some l) rows h =
    Distinct-update id_of (in_session id) (label l) (λ r. refl) rows h

select-append_apart :
    (p : Row → Bool) (rows : List Row) (r : Row)
    → p r ≡ false
    → select p (rows ++ r ∷ []) ≡ select p rows
select-append_apart p [] r e = rw e refl
select-append_apart p (x ∷ rows) r e = ground (arith, select-append_apart p rows r e)

-- A new event leaves the other sessions as they were.
insert_new-others :
    (e : Event) (enrichment : Enrichment) (rows : List Row) (other : String) (l : Label)
    → Labelled rows
    → (e.fields.session_id == other) ≡ false
    → classify_rows other (insert_new e enrichment none rows) ≡ some l
    → All
        (λ r. in_session other r ≡ true → r.classification ≡ some l)
        (insert_new e enrichment none rows)
unfolding insert_new row_of columns_of
insert_new-others e enrichment rows other l h apart c =
    elim (Bool-cases (any (λ r. r.event.event_id == e.event_id) rows)) [
      | inl there ↦ rw (there, All) (h other l (rw there at c))
      | inr fresh ↦
          let row = row_of e enrichment none in
          let seen : classify_rows other (rows ++ row ∷ []) ≡ some l = rw fresh at c in
          let before : classify_rows other rows ≡ some l =
            classify_rows_lem other rows
            ∙ ap
                (λ rs.
                  classify_session
                    (order_asc (λ (v : SessionEvent). v.timestamp) (map session_event rs)))
                (sym (select-append_apart (in_session other) rows row apart))
            ∙ sym (classify_rows_lem other (rows ++ row ∷ []))
            ∙ seen in
          rw (fresh, All)
            (All-append _ rows (row ∷ []) (h other l before) (λ q. absurd (differ apart q), tt))
    ]
  where
    differ : {b : Bool} → b ≡ false → b ≡ true → ⊥
    differ x y = cc

stored_rows-IsConsistent :
    (out : Outside) (now : ℕ) (r : Incoming) (s : Analyzer)
    → IsConsistent s.events
    → IsConsistent (stored_rows out now r s)
stored_rows-IsConsistent out now r s h =
    let found = enrich out now r.event.fields.src_ip r.provided s.abuse in
    let rows = insert_new r.event found.0 none s.events in
    let id = r.event.fields.session_id in
    record {
      unique_ids =
          reclassify-Distinct id (classify_rows id rows) rows
            (insert_new-Distinct r.event found.0 none s.events h.unique_ids);
      labelled = reclassify-Labelled id rows (λ other l apart c.
          insert_new-others r.event found.0 s.events other l h.labelled apart c);
    }

pub ingest-IsConsistent :
    (out : Outside) (now : ℕ) (r : Incoming) (s : Analyzer)
    → IsConsistent s.events
    → IsConsistent (ingest out now r s).1.events
ingest-IsConsistent out now r s h = elim (Bool-cases (taken out r)) [
  | inl e ↦
      subst IsConsistent (sym (ingest-taken out now r s e)) (stored_rows-IsConsistent out now r s h)
  | inr e ↦ subst IsConsistent (sym (ingest-refused out now r s e)) h
]

-- After any sequence of requests to an empty table, no two rows have one identifier, and every
-- session that the classifier labels bears that label in all of its rows.
pub ingest_all-IsConsistent :
    (out : Outside) (rs : List (ℕ × Incoming)) (s : Analyzer)
    → IsConsistent s.events
    → IsConsistent (ingest_all out rs s).events
unfolding ingest_all
ingest_all-IsConsistent out [] s h = h
ingest_all-IsConsistent out ((now, r) ∷ rs) s h =
    ingest_all-IsConsistent out rs (ingest out now r s).1 (ingest-IsConsistent out now r s h)

-- An event whose identifier a consistent table holds changes no row of it, whatever else the request
-- says.
pub ingest_again :
    (out : Outside) (now : ℕ) (r : Incoming) (s : Analyzer)
    → IsConsistent s.events
    → any (λ row. row.event.event_id == r.event.event_id) s.events ≡ true
    → (ingest out now r s).1.events ≡ s.events
unfolding insert_new
ingest_again out now r s h there = elim (Bool-cases (taken out r)) [
  | inl e ↦
      ingest-taken out now r s e
      ∙ rw there (reclassify_idle r.event.fields.session_id s.events h.labelled)
  | inr e ↦ ingest-refused out now r s e
]
