-- ===== src/Base/Table.antt =====
-- The SQL statements that the programs send, on tables as lists of rows in insertion order.
use Prim.Native.Nat.{ℕ}
use Prim.Native.String.{String}
use mathlib.Core.Path.{◌≡◌, refl, subst, ◌∙◌}
use mathlib.Core.Logic.{◌≢◌, inl, inr}
use mathlib.Core.Bool.{Bool, true, false, not}
use mathlib.Core.Option.{Option, none, some, some-injective}
use mathlib.Core.List.{List, [], ◌∷◌, ◌++◌}
use native.Mathlib.Omega.{arith}
use honeypot_m1spro.Base.Tests.{leb, if◌then◌else◌, Bool-cases, is_some}
use honeypot_m1spro.Base.Lists.{any, select, All, All-append}

module _ {ℓ} {A : Type ℓ} where
  -- `SELECT … WHERE p`, then `fetchone()`.
  unfoldable pub fetch_one : (A → Bool) → List A → Option A
  fetch_one p [] = none
  fetch_one p (x ∷ xs) = let rest = fetch_one p xs in if p x then some x else rest

  -- `UPDATE … SET f WHERE p`.
  unfoldable pub update_where : (A → Bool) → (A → A) → List A → List A
  update_where p f [] = []
  update_where p f (x ∷ xs) = let rest = update_where p f xs in if p x then f x ∷ rest else x ∷ rest

  -- `DELETE … WHERE p`, and whether `rowcount > 0`.
  unfoldable pub delete_where : (A → Bool) → List A → Bool × List A
  delete_where p xs = (any p xs, select (λ x. not (p x)) xs)

  -- `ORDER BY key DESC`; rows with equal keys stay in insertion order.
  unfoldable pub insert_desc : (A → ℕ) → A → List A → List A
  insert_desc key x [] = x ∷ []
  insert_desc key x (y ∷ ys) =
      let rest = insert_desc key x ys in if leb (key y) (key x) then x ∷ y ∷ ys else y ∷ rest

  unfoldable pub order_desc : (A → ℕ) → List A → List A
  unfolding insert_desc
  order_desc key [] = []
  order_desc key (x ∷ xs) = insert_desc key x (order_desc key xs)

  -- A `UNIQUE` column.
  abbrev pub Distinct : (A → String) → List A → Type 0
  Distinct key [] = Unit
  Distinct key (x ∷ xs) = All (λ y. key x ≢ key y) xs × Distinct key xs

  pub fetch_one-some : (p : A → Bool) (xs : List A) {x : A} → fetch_one p xs ≡ some x → p x ≡ true
  unfolding fetch_one
  fetch_one-some p [] e = cc
  fetch_one-some p (y ∷ xs) {x} e = elim (Bool-cases (p y)) [
    | inl hit ↦
        let same : some y ≡ some x = rw hit at e in
        subst (λ z. p z ≡ true) (some-injective y x same) hit
    | inr miss ↦ fetch_one-some p xs (rw miss at e)
  ]

  pub is_some-fetch_one : (p : A → Bool) (xs : List A) → is_some (fetch_one p xs) ≡ any p xs
  unfolding fetch_one
  is_some-fetch_one p [] = refl
  is_some-fetch_one p (x ∷ xs) = ground (arith, is_some-fetch_one p xs)

  pub fetch_one-append_none :
      (p : A → Bool) (xs : List A) (x : A)
      → fetch_one p xs ≡ none
      → fetch_one p (xs ++ x ∷ []) ≡ (if p x then some x else none)
  unfolding fetch_one
  fetch_one-append_none p [] x e = refl
  fetch_one-append_none p (y ∷ xs) x e = ground (arith, fetch_one-append_none p xs x)

  -- Rows that the test cannot select do not matter.
  pub fetch_one-select :
      (p q : A → Bool)
      → ((x : A) → p x ≡ true → q x ≡ true)
      → (xs : List A) → fetch_one p (select q xs) ≡ fetch_one p xs
  unfolding fetch_one
  fetch_one-select p q h [] = refl
  fetch_one-select p q h (x ∷ xs) = ground (arith, h x, fetch_one-select p q h xs)

  pub All-keep : (P : A → Type 0) (p : A → Bool) (xs : List A) → All P xs → All P (select p xs)
  All-keep P p [] h = tt
  All-keep P p (x ∷ xs) (here, more) = elim (Bool-cases (p x)) [
    | inl e ↦ rw (e, All) (here, All-keep P p xs more)
    | inr e ↦ rw (e, All) (All-keep P p xs more)
  ]

  pub Distinct-select :
      (key : A → String) (p : A → Bool) (xs : List A) → Distinct key xs → Distinct key (select p xs)
  Distinct-select key p [] h = tt
  Distinct-select key p (x ∷ xs) (here, more) = elim (Bool-cases (p x)) [
    | inl e ↦ rw (e, Distinct) (All-keep _ p xs here, Distinct-select key p xs more)
    | inr e ↦ rw (e, Distinct) (Distinct-select key p xs more)
  ]

  pub All-update :
      (P : A → Type 0) (p : A → Bool) (f : A → A)
      → ((x : A) → P x → P (f x))
      → (xs : List A) → All P xs
      → All P (update_where p f xs)
  unfolding update_where
  All-update P p f h [] k = tt
  All-update P p f h (x ∷ xs) (here, more) = elim (Bool-cases (p x)) [
    | inl e ↦ rw (e, All) (h x here, All-update P p f h xs more)
    | inr e ↦ rw (e, All) (here, All-update P p f h xs more)
  ]

  pub Distinct-update :
      (key : A → String) (p : A → Bool) (f : A → A)
      → ((x : A) → key (f x) ≡ key x)
      → (xs : List A) → Distinct key xs
      → Distinct key (update_where p f xs)
  unfolding update_where
  Distinct-update key p f h [] k = tt
  Distinct-update key p f h (x ∷ xs) (here, more) =
      let apart : All (λ y. key x ≢ key y) (update_where p f xs) =
        All-update (λ y. key x ≢ key y) p f (λ y k e. k (e ∙ h y)) xs here in
      elim (Bool-cases (p x)) [
        | inl e ↦ rw (e, Distinct) (rw (h x) apart, Distinct-update key p f h xs more)
        | inr e ↦ rw (e, Distinct) (apart, Distinct-update key p f h xs more)
      ]

  pub Distinct-append :
      (key : A → String) (xs : List A) (x : A)
      → Distinct key xs
      → All (λ y. key y ≢ key x) xs
      → Distinct key (xs ++ x ∷ [])
  Distinct-append key [] x h k = (tt, tt)
  Distinct-append key (y ∷ xs) x (here, more) (apart, rest) =
      (All-append _ xs (x ∷ []) here (apart, tt), Distinct-append key xs x more rest)

  -- The test of an `INSERT` finds no row with the key.
  pub All-apart :
      (p : A → Bool) (key : A → String) (k : String) (xs : List A)
      → ((x : A) → key x ≡ k → p x ≡ true)
      → any p xs ≡ false
      → All (λ y. key y ≢ k) xs
  All-apart p key k [] h e = tt
  All-apart p key k (x ∷ xs) h e =
      (λ same. ground (arith, h x same), All-apart p key k xs h (ground arith))

  -- A selection that implies an earlier one makes it idle.
  pub select-select :
      (q p : A → Bool)
      → ((x : A) → q x ≡ true → p x ≡ true)
      → (xs : List A) → select q (select p xs) ≡ select q xs
  select-select q p h [] = refl
  select-select q p h (x ∷ xs) = ground (arith, h x, select-select q p h xs)

  pub fetch_one-delete : (p : A → Bool) (xs : List A) → fetch_one p (delete_where p xs).1 ≡ none
  unfolding fetch_one delete_where
  fetch_one-delete p [] = refl
  fetch_one-delete p (x ∷ xs) = ground (arith, fetch_one-delete p xs)
