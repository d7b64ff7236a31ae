-- ===== src/Base/Keys.antt =====
-- Rows that a unique column identifies.
use Prim.Native.String.{String}
use mathlib.Core.Path.{◌≡◌, refl, sym, subst, ◌∙◌}
use mathlib.Core.Logic.{◌≢◌, inl, inr}
use mathlib.Core.Bool.{Bool, false}
use mathlib.Core.Option.{some, some-injective}
use mathlib.Core.List.{List, [], ◌∷◌}
use native.Mathlib.Omega.{arith}
use text.Mathlib.Text.{◌==◌}
use text.Mathlib.TextEquality.{eq_iff}
use text.Mathlib.TextPositions.{eq_refl}
use honeypot_m1spro.Base.Tests.{Bool-cases}
use honeypot_m1spro.Base.Lists.{All}
use honeypot_m1spro.Base.Text.{==-false}
use honeypot_m1spro.Base.Table.{fetch_one, update_where, Distinct}

module _ {ℓ} {A : Type ℓ} where
  fetch_one-All :
      (P : A → Type 0) (p : A → Bool) (xs : List A) {x : A}
      → All P xs
      → fetch_one p xs ≡ some x
      → P x
  unfolding fetch_one
  fetch_one-All P p [] h e = absurd (ground arith)
  fetch_one-All P p (y ∷ xs) {x} (here, more) e = elim (Bool-cases (p y)) [
    | inl hit ↦ let same : some y ≡ some x = rw hit at e in subst P (some-injective y x same) here
    | inr miss ↦ fetch_one-All P p xs more (rw miss at e)
  ]

  -- A row that some statement finds is found by its unique column.
  pub fetch_one_unique :
      (key : A → String) (p : A → Bool) (xs : List A) {x : A}
      → Distinct key xs
      → fetch_one p xs ≡ some x
      → fetch_one (λ y. key y == key x) xs ≡ some x
  unfolding fetch_one
  fetch_one_unique key p [] h e = absurd (ground arith)
  fetch_one_unique key p (y ∷ xs) {x} (here, more) e = elim (Bool-cases (p y)) [
    | inl hit ↦
        let same : some y ≡ some x = rw hit at e in
        let found : fetch_one (λ z. key z == key y) (y ∷ xs) ≡ some y =
          rw (eq_refl (key y), fetch_one) refl in
        subst (λ z. fetch_one (λ w. key w == key z) (y ∷ xs) ≡ some z) (some-injective y x same)
          found
    | inr miss ↦
        let rest : fetch_one p xs ≡ some x = rw miss at e in
        let apart : key y ≢ key x = fetch_one-All (λ z. key y ≢ key z) p xs here rest in
        rw (==-false (key y) (key x) apart, fetch_one) (fetch_one_unique key p xs more rest)
  ]

  update_where-miss :
      (p : A → Bool) (f : A → A) (xs : List A)
      → All (λ x. p x ≡ false) xs
      → update_where p f xs ≡ xs
  unfolding update_where
  update_where-miss p f [] h = refl
  update_where-miss p f (x ∷ xs) (here, more) = ground (arith, update_where-miss p f xs more)

  All-map : (P Q : A → Type 0) (xs : List A) → ((x : A) → P x → Q x) → All P xs → All Q xs
  All-map P Q [] h k = tt
  All-map P Q (x ∷ xs) h (here, more) = (h x here, All-map P Q xs h more)

  -- The update of the row of a key keeps what holds of every row and of the new row.
  pub All-update_key :
      (P : A → Type 0) (key : A → String) (f : A → A) (k : String) (xs : List A) {x : A}
      → Distinct key xs
      → fetch_one (λ y. key y == k) xs ≡ some x
      → P (f x)
      → All P xs
      → All P (update_where (λ y. key y == k) f xs)
  unfolding fetch_one update_where
  All-update_key P key f k [] d e new h = tt
  All-update_key P key f k (y ∷ xs) {x} (apart, d) e new (here, more) =
      elim (Bool-cases (key y == k)) [
        | inl hit ↦
            let same : some y ≡ some x = rw hit at e in
            let others : All (λ z. (key z == k) ≡ false) xs =
              All-map (λ z. key y ≢ key z) (λ z. (key z == k) ≡ false) xs
                (λ z no.
                  ==-false (key z) k (λ same_key. no ((eq_iff (key y) k).0 hit ∙ sym same_key)))
                apart in
            rw (hit, All)
              (
                subst (λ z. P (f z)) (sym (some-injective y x same)) new,
                rw (update_where-miss (λ z. key z == k) f xs others) more,
              )
        | inr miss ↦ rw (miss, All) (here, All-update_key P key f k xs d (rw miss at e) new more)
      ]
