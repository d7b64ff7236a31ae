-- ===== src/Analyzer/Merge.antt =====
-- analyzer/enrichers/__init__.py: what `enrich` answers for a key.
use honeypot_m1spro.Base.{
  lookup, insert, lookup-insert, ℕ, String, ◌≡◌, refl, sym, ap, subst, ◌∙◌, ◌≢◌, inl, inr, Bool,
  true, false, Option, none, some, [], ◌∷◌, arith, ◌==◌, eq_iff, eq_refl, if◌then◌else◌, Bool-cases,
  All, ==-false, Distinct,
}
use honeypot_m1spro.Analyzer.{Enrichment, is_null, Value}
use honeypot_m1spro.Analyzer.Enrichers.{
  geo_lookup, abuse_lookup, update, not_null, provided_or_empty, live, enrich, Outside, Abuse,
}

abbrev pub or_other : Option Value → Option Value → Option Value
or_other none other = other
or_other (some v) other = some v

-- The last value of a key.
abbrev latest : String → Enrichment → Option Value
latest k [] = none
latest k ((j, v) ∷ e) = or_other (latest k e) (if j == k then some v else none)

lookup-update :
    (k : String) (d e : Enrichment) → lookup k (update d e) ≡ or_other (latest k e) (lookup k d)
unfolding update
lookup-update k d [] = refl
lookup-update k d ((j, v) ∷ e) =
    lookup-update k (insert j v d) e ∙ ground (arith, lookup-insert j k v d)

abbrev key_of : String × Value → String
key_of kv = kv.0

insert-All :
    (i k : String) (v : Value) (d : Enrichment)
    → i ≢ k
    → All (λ kv. i ≢ kv.0) d
    → All (λ kv. i ≢ kv.0) (insert k v d)
unfolding insert
insert-All i k v [] h a = (h, tt)
insert-All i k v ((j, w) ∷ d) h (here, more) = elim (Bool-cases (j == k)) [
  | inl e ↦ rw (e, All) (h, more)
  | inr e ↦ rw (e, All) (here, insert-All i k v d h more)
]

insert-Distinct :
    (k : String) (v : Value) (d : Enrichment) → Distinct key_of d → Distinct key_of (insert k v d)
unfolding insert
insert-Distinct k v [] h = (tt, tt)
insert-Distinct k v ((j, w) ∷ d) (here, more) = elim (Bool-cases (j == k)) [
  | inl e ↦ rw (e, Distinct) (subst (λ i. All (λ kv. i ≢ kv.0) d) ((eq_iff j k).0 e) here, more)
  | inr e ↦
      rw (e, Distinct)
        (
          insert-All j k v d (λ same. differ e (rw same (eq_refl k))) here,
          insert-Distinct k v d more,
        )
]
  where
    differ : {b : Bool} → b ≡ false → b ≡ true → ⊥
    differ e f = cc

update-Distinct : (d e : Enrichment) → Distinct key_of d → Distinct key_of (update d e)
unfolding update
update-Distinct d [] h = h
update-Distinct d ((k, v) ∷ e) h = update-Distinct (insert k v d) e (insert-Distinct k v d h)

live-Distinct :
    (out : Outside) (now : ℕ) (ip : String) (s : Abuse) → Distinct key_of (live out now ip s).0
unfolding live
live-Distinct out now ip s =
    let geo = update [] (geo_lookup out ip) in
    let here : Distinct key_of geo = update-Distinct [] (geo_lookup out ip) tt in
    let both : Distinct key_of (update geo (abuse_lookup out now ip s).answer) =
      update-Distinct geo (abuse_lookup out now ip s).answer here in
    elim (Bool-cases (out.is_global ip)) [
      | inl e ↦ rw (e, Distinct) both
      | inr e ↦ rw (e, Distinct) here
    ]

-- A value that is there and not null.
abbrev pub known : Option Value → Option Value
known none = none
known (some v) = if is_null v then none else some v

lookup-absent :
    (k : String) (e : Enrichment) → All (λ kv. k ≢ kv.0) e → latest k (not_null e) ≡ none
unfolding not_null
lookup-absent k [] h = refl
lookup-absent k ((j, v) ∷ e) (here, more) =
    ground (arith, lookup-absent k e more, ==-false j k (λ s. here (sym s)))

latest-not_null :
    (k : String) (e : Enrichment) → Distinct key_of e → latest k (not_null e) ≡ known (lookup k e)
unfolding not_null lookup
latest-not_null k [] h = refl
latest-not_null k ((j, v) ∷ e) (here, more) = elim (Bool-cases (j == k)) [
  | inl same ↦
      let absent : latest k (not_null e) ≡ none =
        lookup-absent k e (subst (λ i. All (λ kv. i ≢ kv.0) e) ((eq_iff j k).0 same) here) in
      ground (arith, absent)
  | inr other ↦ ground (arith, latest-not_null k e more)
]

-- For every key, the enrichment of an event holds what the enrichers find now, if they find something
-- that is not null, and what the event itself carried otherwise.
pub enrich-lookup :
    (out : Outside) (now : ℕ) (ip : String) (provided : Option Enrichment) (s : Abuse) (k : String)
    → lookup k (enrich out now ip provided s).0
      ≡ or_other (known (lookup k (live out now ip s).0)) (lookup k (provided_or_empty provided))
unfolding enrich
enrich-lookup out now ip provided s k =
    lookup-update k (provided_or_empty provided) (not_null (live out now ip s).0)
    ∙ ap (λ o. or_other o (lookup k (provided_or_empty provided)))
        (latest-not_null k (live out now ip s).0 (live-Distinct out now ip s))
