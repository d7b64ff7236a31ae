-- ===== src/Classifier/Order.antt =====
-- The order in which the events of a session arrive does not matter, and a mean is a quotient.
use mathlib.Core.List.{Permᴰ}
use honeypot_m1spro.Base.{
  ℕ, suc, String, ◌≡◌, refl, ap, subst, ◌∙◌, inl, inr, Bool, ◌||◌, Option, none, some, List, [],
  ◌∷◌, map, arith, ◌==◌, eq_iff, Bool-cases, length, any, select,
}
use honeypot_m1spro.Classifier.{
  insert_time, sort_times, unique, texts, is_type, features, priority_order, first_match,
  classify_session, SessionEvent,
}

-- Reorderings without equations between the elements.
data Reorder {A : Type 0} : List A → List A → Type 0 where
  same_nil : Reorder [] []
  same_head : (x : A) {xs ys : List A} → Reorder xs ys → Reorder (x ∷ xs) (x ∷ ys)
  exchange : (x y : A) (xs : List A) → Reorder (x ∷ y ∷ xs) (y ∷ x ∷ xs)
  both : {xs ys zs : List A} → Reorder xs ys → Reorder ys zs → Reorder xs zs

Reorder-refl : {A : Type 0} (xs : List A) → Reorder xs xs
Reorder-refl [] = same_nil
Reorder-refl (x ∷ xs) = same_head x (Reorder-refl xs)

Reorder-of_Perm : {A : Type 0} {xs ys : List A} → Permᴰ xs ys → Reorder xs ys
Reorder-of_Perm Permᴰ.nil = same_nil
Reorder-of_Perm (Permᴰ.cons {a} {b} {l₁} {l₂} e d) =
    subst (λ z. Reorder (a ∷ l₁) (z ∷ l₂)) e (same_head a (Reorder-of_Perm d))
Reorder-of_Perm (Permᴰ.swap {a} {b} {a'} {b'} {l} e e') =
    subst (λ z. Reorder (a ∷ b ∷ l) (z ∷ b' ∷ l)) e'
      (subst (λ w. Reorder (a ∷ b ∷ l) (b ∷ w ∷ l)) e (exchange a b l))
Reorder-of_Perm (Permᴰ.trans d d') = both (Reorder-of_Perm d) (Reorder-of_Perm d')

module _ {A : Type 0} where
  length-Reorder : {xs ys : List A} → Reorder xs ys → length xs ≡ length ys
  length-Reorder same_nil = refl
  length-Reorder (same_head x r) = ap suc (length-Reorder r)
  length-Reorder (exchange x y xs) = refl
  length-Reorder (both r r') = length-Reorder r ∙ length-Reorder r'

  any-Reorder : (p : A → Bool) {xs ys : List A} → Reorder xs ys → any p xs ≡ any p ys
  any-Reorder p same_nil = refl
  any-Reorder p (same_head x r) = ap (λ b. p x || b) (any-Reorder p r)
  any-Reorder p (exchange x y xs) = ground arith
  any-Reorder p (both r r') = any-Reorder p r ∙ any-Reorder p r'

  select-Reorder :
      (p : A → Bool) {xs ys : List A} → Reorder xs ys → Reorder (select p xs) (select p ys)
  select-Reorder p same_nil = same_nil
  select-Reorder p (same_head x r) = elim (Bool-cases (p x)) [
    | inl hit ↦ rw (hit, select) (same_head x (select-Reorder p r))
    | inr miss ↦ rw (miss, select) (select-Reorder p r)
  ]
  select-Reorder p (exchange x y xs) = elim (Bool-cases (p y)) [
    | inl too ↦ elim (Bool-cases (p x)) [
      | inl hit ↦
          rw (too, select) (rw (hit, select) (rw (too, select) (exchange x y (select p xs))))
      | inr miss ↦ rw (too, select) (rw (miss, select) (rw (too, select) (Reorder-refl _)))
    ]
    | inr not_y ↦ elim (Bool-cases (p x)) [
      | inl hit ↦ rw (not_y, select) (rw (hit, select) (rw (not_y, select) (Reorder-refl _)))
      | inr miss ↦ rw (not_y, select) (rw (miss, select) (rw (not_y, select) (Reorder-refl _)))
    ]
  ]
  select-Reorder p (both r r') = both (select-Reorder p r) (select-Reorder p r')

map-Reorder :
    {A B : Type 0} (f : A → B) {xs ys : List A} → Reorder xs ys → Reorder (map f xs) (map f ys)
map-Reorder f same_nil = same_nil
map-Reorder f (same_head x r) = same_head (f x) (map-Reorder f r)
map-Reorder f (exchange x y xs) = exchange (f x) (f y) (map f xs)
map-Reorder f (both r r') = both (map-Reorder f r) (map-Reorder f r')

texts-Reorder : {xs ys : List (Option String)} → Reorder xs ys → Reorder (texts xs) (texts ys)
unfolding texts
texts-Reorder same_nil = same_nil
texts-Reorder (same_head none r) = texts-Reorder r
texts-Reorder (same_head (some s) r) = elim (Bool-cases (s == "")) [
  | inl empty ↦ rw (empty, texts) (texts-Reorder r)
  | inr full ↦ rw (full, texts) (same_head s (texts-Reorder r))
]
texts-Reorder (exchange none none xs) = Reorder-refl (texts xs)
texts-Reorder (exchange none (some t) xs) = Reorder-refl (texts (some t ∷ xs))
texts-Reorder (exchange (some s) none xs) = Reorder-refl (texts (some s ∷ xs))
texts-Reorder (exchange (some s) (some t) xs) = elim (Bool-cases (t == "")) [
  | inl empty ↦ rw (empty, texts) (Reorder-refl _)
  | inr full ↦ elim (Bool-cases (s == "")) [
    | inl empty ↦ rw (full, texts) (rw (empty, texts) (Reorder-refl _))
    | inr too ↦ rw (full, texts) (rw (too, texts) (exchange s t (texts xs)))
  ]
]
texts-Reorder (both r r') = both (texts-Reorder r) (texts-Reorder r')

unique-Reorder : {xs ys : List String} → Reorder xs ys → length (unique xs) ≡ length (unique ys)
unfolding unique
unique-Reorder same_nil = refl
unique-Reorder (same_head x r) = ground (arith, any-Reorder (λ y. y == x) r, unique-Reorder r)
unique-Reorder (exchange x y xs) = ground (arith, eq_iff x y, eq_iff y x)
unique-Reorder (both r r') = unique-Reorder r ∙ unique-Reorder r'

insert_time_comm :
    (t u : ℕ) (ts : List ℕ) → insert_time t (insert_time u ts) ≡ insert_time u (insert_time t ts)
unfolding insert_time
insert_time_comm t u [] = ground arith
insert_time_comm t u (v ∷ ts) = ground (arith, insert_time_comm t u ts)

sort_times-Reorder : {ts us : List ℕ} → Reorder ts us → sort_times ts ≡ sort_times us
unfolding sort_times
sort_times-Reorder same_nil = refl
sort_times-Reorder (same_head t r) = ap (insert_time t) (sort_times-Reorder r)
sort_times-Reorder (exchange t u ts) = insert_time_comm t u (sort_times ts)
sort_times-Reorder (both r r') = sort_times-Reorder r ∙ sort_times-Reorder r'

module _ {xs ys : List SessionEvent} (r : Reorder xs ys) where
  features-Reorder : features xs ≡ features ys
  unfolding features
  features-Reorder =
      let times = sort_times-Reorder (map-Reorder (λ e. e.timestamp) r) in
      let auth = select-Reorder (is_type "auth_attempt") r in
      let cmds =
        texts-Reorder (map-Reorder (λ e. e.command) (select-Reorder (is_type "command") r)) in
      let passwords = texts-Reorder (map-Reorder (λ e. e.password) auth) in
      rw
        (
          times,
          length-Reorder r,
          length-Reorder auth,
          unique-Reorder passwords,
          length-Reorder cmds,
          unique-Reorder cmds,
          any-Reorder (λ e. is_type "command" e || is_type "auth_success" e) r,
          any-Reorder (λ e. e.known_scanner) r,
        )
        refl

-- The label of a session does not depend on the order in which its events are given.
pub classify_session-Perm :
    {xs ys : List SessionEvent} → Permᴰ xs ys → classify_session xs ≡ classify_session ys
unfolding classify_session
classify_session-Perm {xs = []} {ys = []} d = refl
classify_session-Perm {xs = []} {ys = y ∷ ys} d =
    absurd (omega (arith, length-Reorder (Reorder-of_Perm d)))
classify_session-Perm {xs = x ∷ xs} {ys = []} d =
    absurd (omega (arith, length-Reorder (Reorder-of_Perm d)))
classify_session-Perm {xs = x ∷ xs} {ys = y ∷ ys} d =
    ap (first_match priority_order) (features-Reorder (Reorder-of_Perm d))
