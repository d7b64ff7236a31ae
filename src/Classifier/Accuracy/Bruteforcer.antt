-- ===== src/Classifier/Accuracy/Bruteforcer.antt =====
-- analyzer/evaluate.py: the sessions of `_gen_bruteforcer` and `_gen_scanner`.
use text.Mathlib.TextLemmas.{cons-append}
use honeypot_m1spro.Base.{
  ℕ, zero, suc, ◌+◌, ◌≤◌, ◌<◌, String, ◌≡◌, refl, sym, ap, ◌∙◌, Bool, true, false, some, List, [],
  ◌∷◌, map, arith, ◌==◌, length, any, select, ◌<>◌, skip, skip-size, starts_with, ==-false, decimal,
  read_number, read_number-decimal_on,
}
use honeypot_m1spro.Classifier.{
  unique, texts, is_type, is_connect_close, features, match_scanner, match_bruteforcer,
  matches_profile, first_match, classify_session, SessionEvent, scanner_legitime, bruteforcer,
}
use honeypot_m1spro.Classifier.Profiles.{classify_session_iff}
use honeypot_m1spro.Classifier.Generators.{
  attempt, drawn_password, brute_loop, gen_bruteforcer, gen_scanner,
}

-- The index in a drawn password.
abbrev index_in : String → ℕ
index_in s = read_number 0 (skip 2 s)

index_in-drawn_password : (i r : ℕ) → index_in (drawn_password i r) ≡ i
index_in-drawn_password i r =
    let rest : String = "-" <> decimal r in
    ap (read_number 0) (skip-size "pw" (decimal i <> rest))
    ∙ read_number-decimal_on (suc i) i rest (omega arith)
    ∙ ap (read_number i) (cons-append "-" "" (decimal r))

drawn_password-== : (i j r r' : ℕ) → i < j → (drawn_password j r' == drawn_password i r) ≡ false
drawn_password-== i j r r' h = ==-false (drawn_password j r') (drawn_password i r) λ e.
    let same : j ≡ i =
      sym (index_in-drawn_password j r') ∙ ap index_in e ∙ index_in-drawn_password i r in
    omega arith

drawn_password_full : (i r : ℕ) → (drawn_password i r == "") ≡ false
drawn_password_full i r = ==-false (drawn_password i r) "" λ e.
    let first : starts_with (drawn_password i r) "p" ≡ starts_with "" "p" =
      ap (λ s. starts_with s "p") e in
    let there : starts_with (drawn_password i r) "p" ≡ true =
      ap (λ s. starts_with s "p") (cons-append "p" "w" (decimal i <> "-" <> decimal r)) in
    let clash : true ≡ false = sym there ∙ first in cc

module _ (number gap : ℕ → ℕ) where
  -- The passwords of the attempts, from the index `i` on.
  abbrev drawn : ℕ → ℕ → List String
  drawn zero i = []
  drawn (suc n) i = drawn_password i (number i) ∷ drawn n (suc i)

  any-drawn : (n i j r : ℕ) → i < j → any (λ p. p == drawn_password i r) (drawn n j) ≡ false
  any-drawn zero i j r h = refl
  any-drawn (suc n) i j r h =
      rw (drawn_password-== i j r (number j) h) (any-drawn n i (suc j) r (omega arith))

  unique-drawn : (n i : ℕ) → length (unique (drawn n i)) ≡ n
  unfolding unique
  unique-drawn zero i = refl
  unique-drawn (suc n) i =
      rw (any-drawn n i (suc i) (number i) (omega arith)) (ap suc (unique-drawn n (suc i)))

  loop-attempts :
      (n i t : ℕ) → length (select (is_type "auth_attempt") (brute_loop number gap n i t)) ≡ n
  unfolding brute_loop
  loop-attempts zero i t = refl
  loop-attempts (suc n) i t = ap suc (loop-attempts n (suc i) (t + gap i))

  loop-commands : (n i t : ℕ) → select (is_type "command") (brute_loop number gap n i t) ≡ []
  unfolding brute_loop
  loop-commands zero i t = refl
  loop-commands (suc n) i t = loop-commands n (suc i) (t + gap i)

  loop-passwords :
      (n i t : ℕ)
      → texts (
          map
            (λ (e : SessionEvent). e.password)
            (select (is_type "auth_attempt") (brute_loop number gap n i t)))
        ≡ drawn n i
  unfolding brute_loop texts
  loop-passwords zero i t = refl
  loop-passwords (suc n) i t =
      rw (drawn_password_full i (number i))
        (ap (λ ps. drawn_password i (number i) ∷ ps) (loop-passwords n (suc i) (t + gap i)))

  match_bruteforcer-brute_loop :
      (n i t : ℕ) → 20 ≤ n → match_bruteforcer (features (brute_loop number gap n i t)) ≡ true
  unfolding match_bruteforcer features
  match_bruteforcer-brute_loop n i t h =
      rw (loop-attempts n i t, loop-passwords n i t, unique-drawn n i, loop-commands n i t)
        (unfold texts in ground arith)

  -- A session of `_gen_bruteforcer`.
  pub gen_bruteforcer-label :
      (n : ℕ) → 25 ≤ n → classify_session (gen_bruteforcer n number gap) ≡ some bruteforcer
  unfolding gen_bruteforcer brute_loop
  gen_bruteforcer-label zero h = absurd (omega arith)
  gen_bruteforcer-label (suc n) h =
      (classify_session_iff (attempt 0 (drawn_password 0 (number 0)))
          (brute_loop number gap n 1 (0 + gap 0))).1.1
        (match_bruteforcer-brute_loop (suc n) 0 0 (omega arith))

-- A session of `_gen_scanner`.
pub gen_scanner-label :
    (tries : Bool) (gap gap' : ℕ)
    → classify_session (gen_scanner tries gap gap') ≡ some scanner_legitime
unfolding gen_scanner classify_session first_match matches_profile match_scanner features texts
    is_connect_close
gen_scanner-label true gap gap' = refl
gen_scanner-label false gap gap' = refl
