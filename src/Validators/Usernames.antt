-- ===== src/Validators/Usernames.antt =====
-- What an accepted user name is made of, and what a final line feed does to the check.
use text.Mathlib.TextLemmas.{nil-append, cons-append, append_assoc}
use honeypot_m1spro.Base.{
  ℕ, ◌≤◌, Char, code, String, ◌≡◌, refl, sym, ap, ◌≢◌, true, false, List, [], ◌∷◌, arith, All, ◌<>◌,
  size, has_char, ==-false, all_chars,
}
use honeypot_m1spro.Validators.Chars.{is_username_start, is_username_char, chomp, lower_char, lower}
use honeypot_m1spro.Validators.{
  one_of, forbidden_usernames, username_body, username_re, validate_username,
}

-- The shape that the documentation promises: 3 to 30 characters of [a-zA-Z0-9_-], the first no
-- digit and no dash.
abbrev pub IsUsername : String → Type 0
IsUsername String.[] = ⊥
IsUsername (String.◌∷◌ c s) =
    (is_username_start (code c) ≡ true)
    × (2 ≤ size s)
    × (size s ≤ 29)
    × (all_chars is_username_char s ≡ true)

username_re-IsUsername : (s : String) → username_re s ≡ true → IsUsername (chomp s)
unfolding username_re username_body
username_re-IsUsername s h = go (chomp s) h
  where
    go : (t : String) → username_body t ≡ true → IsUsername t
    go String.[] e = cc
    go (String.◌∷◌ c t) e = ground arith

-- An accepted user name has the promised shape up to one final line feed, and its lower case is no
-- reserved name.
pub validate_username-IsUsername :
    (wide : Char → String) (u : String)
    → validate_username wide u ≡ true
    → IsUsername (chomp u) × (one_of (lower wide u) forbidden_usernames ≡ false)
unfolding validate_username
validate_username-IsUsername wide u h = (username_re-IsUsername u (ground arith), ground arith)

chomp-append : (s : String) → chomp (s <> "\n") ≡ s
unfolding chomp
chomp-append String.[] = refl
chomp-append (String.◌∷◌ c String.[]) = rw cons-append refl
chomp-append (String.◌∷◌ c (String.◌∷◌ d s)) =
    let ih : chomp (String.◌∷◌ d (s <> "\n")) ≡ String.◌∷◌ d s =
      rw (← cons-append) (chomp-append (String.◌∷◌ d s)) in
    rw (cons-append, cons-append) (ap (λ t. String.◌∷◌ c t) ih)

has_char-append : (n : ℕ) (s t : String) → has_char n t ≡ true → has_char n (s <> t) ≡ true
has_char-append n String.[] t h = rw nil-append h
has_char-append n (String.◌∷◌ c s) t h = rw cons-append (ground (arith, has_char-append n s t h))

lower-append :
    (wide : Char → String) (s t : String) → lower wide (s <> t) ≡ lower wide s <> lower wide t
unfolding lower
lower-append wide String.[] t = rw (nil-append, nil-append) refl
lower-append wide (String.◌∷◌ c s) t =
    rw (cons-append) (rw (lower-append wide s t) (sym (append_assoc _ _ _)))

not-one_of_char :
    (n : ℕ) (s : String) (words : List String)
    → has_char n s ≡ true
    → All (λ w. has_char n w ≡ false) words
    → one_of s words ≡ false
unfolding one_of
not-one_of_char n s [] h k = refl
not-one_of_char n s (w ∷ words) h (here, more) =
    let apart : s ≢ w = λ e. cc (ap (has_char n) e) in
    rw (==-false s w apart) (not-one_of_char n s words h more)

-- Every text of the promised shape, the reserved names among them, is accepted with a line feed
-- behind it.
pub validate_username-line_feed :
    (wide : Char → String) (u : String) → IsUsername u → validate_username wide (u <> "\n") ≡ true
unfolding validate_username username_re username_body lower lower_char
validate_username-line_feed wide String.[] h = absurd h
validate_username-line_feed wide (String.◌∷◌ c s) h =
    let u : String = String.◌∷◌ c s in
    let feed : has_char 10 (lower wide (u <> "\n")) ≡ true =
      rw (lower-append wide u "\n") (has_char-append 10 (lower wide u) (lower wide "\n") refl) in
    let free : one_of (lower wide (u <> "\n")) forbidden_usernames ≡ false =
      not-one_of_char 10 _ forbidden_usernames feed (ground arith) in
    rw (chomp-append u, free) (ground arith)
