-- ===== src/Analyzer/Labels.antt =====
-- analyzer/api.py: what the labelling of a session changes.
use honeypot_m1spro.Base.{
  update_where, ℕ, String, ◌≡◌, refl, sym, ap, subst, ◌∙◌, inl, inr, Bool, true, false, Option,
  none, some, List, [], ◌∷◌, map, arith, ◌==◌, eq_iff, Bool-cases, select, All,
}
use honeypot_m1spro.Classifier.{classify_session, SessionEvent, Label}
use honeypot_m1spro.Analyzer.{Row}
use honeypot_m1spro.Analyzer.Store.{
  insert_asc, order_asc, in_session, session_events, session_event, label, reclassify,
  classify_rows,
}

-- An update that keeps every row that it selects keeps the table.
update_where_idle :
    {A : Type 0} (p : A → Bool) (f : A → A) (xs : List A)
    → All (λ x. p x ≡ true → f x ≡ x) xs
    → update_where p f xs ≡ xs
unfolding update_where
update_where_idle p f [] h = refl
update_where_idle p f (x ∷ xs) (here, more) = ground (arith, here, update_where_idle p f xs more)

All-update_where :
    {A : Type 0} (P : A → Type 0) (p : A → Bool) (f : A → A) (xs : List A)
    → ((x : A) → p x ≡ true → P x → P (f x))
    → All P xs
    → All P (update_where p f xs)
unfolding update_where
All-update_where P p f [] h k = tt
All-update_where P p f (x ∷ xs) h (here, more) = elim (Bool-cases (p x)) [
  | inl e ↦ rw (e, All) (h x e here, All-update_where P p f xs h more)
  | inr e ↦ rw (e, All) (here, All-update_where P p f xs h more)
]

-- An update that makes `P` true of what it selects, where the others have it.
All-updated :
    {A : Type 0} (P : A → Type 0) (p : A → Bool) (f : A → A)
    → ((x : A) → p x ≡ true → P (f x))
    → ((x : A) → p x ≡ false → P x)
    → (xs : List A) → All P (update_where p f xs)
unfolding update_where
All-updated P p f yes_lem no_lem [] = tt
All-updated P p f yes_lem no_lem (x ∷ xs) = elim (Bool-cases (p x)) [
  | inl e ↦ rw (e, All) (yes_lem x e, All-updated P p f yes_lem no_lem xs)
  | inr e ↦ rw (e, All) (no_lem x e, All-updated P p f yes_lem no_lem xs)
]

-- Ordering by a key and then mapping is mapping and then ordering.
map-insert_asc :
    {A B : Type 0} (f : A → B) (key : B → ℕ) (x : A) (xs : List A)
    → map f (insert_asc (λ y. key (f y)) x xs) ≡ insert_asc key (f x) (map f xs)
unfolding insert_asc
map-insert_asc f key x [] = refl
map-insert_asc f key x (y ∷ xs) = ground (arith, map-insert_asc f key x xs)

map-order_asc :
    {A B : Type 0} (f : A → B) (key : B → ℕ) (xs : List A)
    → map f (order_asc (λ y. key (f y)) xs) ≡ order_asc key (map f xs)
unfolding order_asc
map-order_asc f key [] = refl
map-order_asc f key (x ∷ xs) =
    map-insert_asc f key x (order_asc (λ y. key (f y)) xs)
    ∙ ap (insert_asc key (f x)) (map-order_asc f key xs)

-- What the classifier reads of a session, in the order of the table.
abbrev pub session_view : String → List Row → List SessionEvent
session_view id rows = map session_event (select (in_session id) rows)

pub classify_rows_lem :
    (id : String) (rows : List Row)
    → classify_rows id rows
      ≡ classify_session (order_asc (λ (e : SessionEvent). e.timestamp) (session_view id rows))
unfolding session_events
classify_rows_lem id rows =
    ap classify_session (
      map-order_asc session_event (λ (e : SessionEvent). e.timestamp) (select (in_session id) rows))

-- An update that keeps the events keeps what the classifier reads.
session_view-update :
    (id : String) (p : Row → Bool) (l : Label) (rows : List Row)
    → session_view id (update_where p (label l) rows) ≡ session_view id rows
unfolding update_where
session_view-update id p l [] = refl
session_view-update id p l (r ∷ rows) = ground (arith, session_view-update id p l rows)

pub classify_rows-reclassify :
    (id of_id : String) (c : Option Label) (rows : List Row)
    → classify_rows id (reclassify of_id c rows) ≡ classify_rows id rows
unfolding reclassify
classify_rows-reclassify id of_id none rows = refl
classify_rows-reclassify id of_id (some l) rows =
    classify_rows_lem id (update_where (in_session of_id) (label l) rows)
    ∙ ap (λ es. classify_session (order_asc (λ (e : SessionEvent). e.timestamp) es))
        (session_view-update id (in_session of_id) l rows)
    ∙ sym (classify_rows_lem id rows)

-- Every row of a session that the classifier labels bears that label.
abbrev pub Labelled : List Row → Type 0
Labelled rows =
    (id : String) (l : Label)
    → classify_rows id rows ≡ some l
    → All (λ r. in_session id r ≡ true → r.classification ≡ some l) rows

relabel : (l : Label) (r : Row) → r.classification ≡ some l → label l r ≡ r
relabel l r e = ap (λ c. record r { classification = c }) (sym e)

pub All-map :
    {A : Type 0} (P Q : A → Type 0) (xs : List A) → ((x : A) → P x → Q x) → All P xs → All Q xs
All-map P Q [] h k = tt
All-map P Q (x ∷ xs) h (here, more) = (h x here, All-map P Q xs h more)

-- A label that the rows bear already changes nothing.
pub reclassify_idle :
    (id : String) (rows : List Row)
    → Labelled rows
    → reclassify id (classify_rows id rows) rows ≡ rows
reclassify_idle id rows h = idle (classify_rows id rows) (λ l e. h id l e)
  where
    idle :
        (c : Option Label)
        → ((l : Label)
            → c ≡ some l
            → All (λ r. in_session id r ≡ true → r.classification ≡ some l) rows)
        → reclassify id c rows ≡ rows
    idle none k = unfold reclassify in refl
    idle (some l) k =
        unfold reclassify in
        update_where_idle (in_session id) (label l) rows
          (All-map _ _ rows (λ r g e. relabel l r (g e)) (k l refl))

-- Labelling a session labels its rows, and leaves the other sessions as they were.
pub reclassify-Labelled :
    (id : String) (rows : List Row)
    → ((other : String) (l : Label)
        → (id == other) ≡ false
        → classify_rows other rows ≡ some l
        → All (λ r. in_session other r ≡ true → r.classification ≡ some l) rows)
    → Labelled (reclassify id (classify_rows id rows) rows)
reclassify-Labelled id rows h other l e =
    let before : classify_rows other rows ≡ some l =
      sym (classify_rows-reclassify other id (classify_rows id rows) rows) ∙ e in
    elim (Bool-cases (id == other)) [
      | inl same ↦
          let here : classify_rows id rows ≡ some l =
            subst (λ i. classify_rows i rows ≡ some l) (sym ((eq_iff id other).0 same)) before in
          rw here (own ((eq_iff id other).0 same))
      | inr apart ↦ others (classify_rows id rows) apart (h other l apart before)
    ]
  where
    own :
        id ≡ other
        → All
            (λ r. in_session other r ≡ true → r.classification ≡ some l)
            (reclassify id (some l) rows)
    own same =
        unfold reclassify in
        All-updated _ (in_session id) (label l) (λ r p q. refl)
          (λ r p q. absurd (differ p (subst (λ i. in_session i r ≡ true) (sym same) q))) rows
      where
        differ : {b : Bool} → b ≡ false → b ≡ true → ⊥
        differ x y = cc

    others :
        (c : Option Label)
        → (id == other) ≡ false
        → All (λ r. in_session other r ≡ true → r.classification ≡ some l) rows
        → All (λ r. in_session other r ≡ true → r.classification ≡ some l) (reclassify id c rows)
    others none apart k = unfold reclassify in k
    others (some m) apart k =
        unfold reclassify in
        All-update_where _ (in_session id) (label m) rows (λ r p g q. absurd (clash r p q)) k
      where
        clash : (r : Row) → in_session id r ≡ true → in_session other r ≡ true → ⊥
        clash r p q =
            let one : r.event.session_id ≡ id = (eq_iff r.event.session_id id).0 p in
            let two : r.event.session_id ≡ other = (eq_iff r.event.session_id other).0 q in
            let same : (id == other) ≡ true = (eq_iff id other).1 (sym one ∙ two) in cc
