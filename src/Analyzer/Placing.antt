-- ===== src/Analyzer/Placing.antt =====
-- analyzer/backfill_geoip.py: what a second run finds.
use mathlib.Core.Option.{some-injective}
use honeypot_m1spro.Base.{
  update_where, suc, ◌+◌, String, ◌≡◌, refl, ap, subst, ◌∙◌, inl, inr, Bool, true, false, ◌&&◌,
  Option, none, some, List, [], ◌∷◌, map, arith, ◌==◌, eq_iff, eq_refl, Bool-cases, length, any,
  select, All,
}
use honeypot_m1spro.Classifier.{unique}
use honeypot_m1spro.Analyzer.{Enrichment, get, is_null, Row}
use honeypot_m1spro.Analyzer.Enrichers.{geo_lookup, GeoRecord, Outside}
use honeypot_m1spro.Analyzer.Labels.{All-map}
use honeypot_m1spro.Analyzer.Backfill.{
  zeros, has_position, unplaced, place, fill, unplaced_ips, with_reader, backfill, Report,
}

-- An address that a run can place.
abbrev locatable : Outside → String → Bool
locatable out ip = out.is_global ip && has_position (geo_lookup out ip)

-- No row is left that a run could place.
abbrev Placed : Outside → List Row → Type 0
Placed out rows = All (λ r. is_null r.latitude ≡ true → locatable out r.event.src_ip ≡ false) rows

unplaced_none :
    (out : Outside) (ip : String) (loc : Enrichment) (rows : List Row)
    → Placed out rows
    → locatable out ip ≡ true
    → (update_where (unplaced ip) (place loc) rows ≡ rows)
      × (length (select (unplaced ip) rows) ≡ 0)
unfolding update_where
unplaced_none out ip loc [] h l = (refl, refl)
unplaced_none out ip loc (r ∷ rows) (here, more) l =
    ground (arith, here, unplaced_none out ip loc rows more l, (eq_iff r.event.src_ip ip).0)

-- A loop over any addresses finds nothing left to do.
fill_idle :
    (out : Outside) (ips : List String) (rows : List Row) (report : Report)
    → Placed out rows
    → ((fill out ips rows report).0 ≡ rows)
      × ((fill out ips rows report).1.updated_rows ≡ report.updated_rows)
unfolding fill
fill_idle out [] rows report h = (refl, refl)
fill_idle out (ip ∷ ips) rows report h = elim (Bool-cases (out.is_global ip)) [
  | inr e ↦ rw e (fill_idle out ips rows _ h)
  | inl e ↦ elim (Bool-cases (has_position (geo_lookup out ip))) [
    | inr f ↦ rw (e, f) (fill_idle out ips rows _ h)
    | inl f ↦
        let (same, none_left) = unplaced_none out ip (geo_lookup out ip) rows h (rw (e, f) refl) in
        let (kept, count) =
          fill_idle out ips rows
            (record report {
              geoloc_ips = suc report.geoloc_ips;
              updated_rows = report.updated_rows + length (select (unplaced ip) rows);
            })
            h in
        rw (e, f, same) (kept, omega (arith, count, none_left))
  ]
]

-- The rows that a loop over some addresses is to place stand under these addresses.
abbrev Listed : Outside → List String → List Row → Type 0
Listed out ips rows =
    All
      (λ r.
        is_null r.latitude ≡ true
        → locatable out r.event.src_ip ≡ true
        → any (λ i. i == r.event.src_ip) ips ≡ true)
      rows

Listed-skip :
    (out : Outside) (ip : String) (ips : List String) (rows : List Row)
    → locatable out ip ≡ false
    → Listed out (ip ∷ ips) rows
    → Listed out ips rows
Listed-skip out ip ips [] l h = tt
Listed-skip out ip ips (r ∷ rows) l (here, more) = (
  λ n k. elim (Bool-cases (ip == r.event.src_ip)) [
    | inl same ↦ absurd (clash ((eq_iff ip r.event.src_ip).0 same) k)
    | inr other ↦ rw other at here n k
  ],
  Listed-skip out ip ips rows l more,
)
  where
    clash : ip ≡ r.event.src_ip → locatable out r.event.src_ip ≡ true → ⊥
    clash e k =
        let lost : locatable out r.event.src_ip ≡ false =
          subst (λ i. locatable out i ≡ false) e l in
        cc

Listed-place :
    (out : Outside) (ip : String) (ips : List String) (loc : Enrichment) (rows : List Row)
    → has_position loc ≡ true
    → Listed out (ip ∷ ips) rows
    → Listed out ips (update_where (unplaced ip) (place loc) rows)
unfolding update_where
Listed-place out ip ips loc [] p h = tt
Listed-place out ip ips loc (r ∷ rows) p (here, more) = elim (Bool-cases (unplaced ip r)) [
  | inl e ↦ rw (e, All) (λ n k. absurd (placed_now p n), Listed-place out ip ips loc rows p more)
  | inr e ↦
      rw (e, All)
        (
          λ n k. elim (Bool-cases (ip == r.event.src_ip)) [
            | inl s ↦ absurd (taken e n s)
            | inr s ↦ rw s at here n k
          ],
          Listed-place out ip ips loc rows p more,
        )
]
  where
    placed_now : has_position loc ≡ true → is_null (get "latitude" loc) ≡ true → ⊥
    placed_now a b = ground arith

    taken : unplaced ip r ≡ false → is_null r.latitude ≡ true → (ip == r.event.src_ip) ≡ true → ⊥
    taken a b c = ground (arith, eq_iff ip r.event.src_ip, eq_refl ip)

fill-Placed :
    (out : Outside) (ips : List String) (rows : List Row) (report : Report)
    → Listed out ips rows
    → Placed out (fill out ips rows report).0
unfolding fill
fill-Placed out [] rows report h = All-map _ _ rows (λ r g n. not_listed (g n)) h
  where
    not_listed : {b : Bool} → (b ≡ true → false ≡ true) → b ≡ false
    not_listed g = ground (arith, g)
fill-Placed out (ip ∷ ips) rows report h = elim (Bool-cases (out.is_global ip)) [
  | inr e ↦ rw e (fill-Placed out ips rows _ (Listed-skip out ip ips rows (rw e refl) h))
  | inl e ↦ elim (Bool-cases (has_position (geo_lookup out ip))) [
    | inr f ↦
        rw (e, f) (fill-Placed out ips rows _ (Listed-skip out ip ips rows (rw (e, f) refl) h))
    | inl f ↦ rw (e, f) (fill-Placed out ips _ _ (Listed-place out ip ips _ rows f h))
  ]
]

any-unique : (x : String) (xs : List String) → any (λ y. y == x) (unique xs) ≡ any (λ y. y == x) xs
unfolding unique
any-unique x [] = refl
any-unique x (y ∷ xs) = ground (arith, any-unique x xs, eq_iff y x)

any_of_selected :
    (rows : List Row)
    → All
        (λ r.
          is_null r.latitude ≡ true
          → any
              (λ i. i == r.event.src_ip)
              (map (λ (q : Row). q.event.src_ip) (select (λ (q : Row). is_null q.latitude) rows))
            ≡ true)
        rows
any_of_selected [] = tt
any_of_selected (r ∷ rows) = (
  λ n. ground (arith, n, eq_refl r.event.src_ip),
  All-map _ _ rows (λ q g n. ground (arith, g n)) (any_of_selected rows),
)

unplaced_ips-Listed : (out : Outside) (rows : List Row) → Listed out (unplaced_ips rows) rows
unplaced_ips-Listed out rows =
    All-map _ _ rows (λ r g n k. any-unique r.event.src_ip _ ∙ g n) (any_of_selected rows)

with_reader-some :
    (reader : Option (String → Option GeoRecord)) (done y : List Row × Report)
    → with_reader reader done ≡ some y
    → (done ≡ y) × ((z : List Row × Report) → with_reader reader z ≡ some z)
with_reader-some none done y e = absurd (none_some e)
  where
    none_some : none ≡ some y → ⊥
    none_some f = cc
with_reader-some (some get_record) done y e = (some-injective done y e, λ z. refl)

-- A second run changes no row after a first one, and reports that it updated none.
pub backfill_once :
    (out : Outside) (rows after : List Row) (first : Report)
    → backfill out rows ≡ some (after, first)
    → (again : Report) × (backfill out after ≡ some (after, again)) × (again.updated_rows ≡ 0)
unfolding backfill
backfill_once out rows after first e =
    let done = fill out (unplaced_ips rows) rows zeros in
    let (same, answers) = with_reader-some out.reader done (after, first) e in
    let placed : Placed out after =
      subst (λ d. Placed out d.0) same
        (fill-Placed out (unplaced_ips rows) rows zeros (unplaced_ips-Listed out rows)) in
    let next = fill out (unplaced_ips after) after zeros in
    let (kept, count) = fill_idle out (unplaced_ips after) after zeros placed in
    (next.1, answers next ∙ ap (λ rs. some (rs, next.1)) kept, count)
