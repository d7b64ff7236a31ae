-- ===== src/Validators/Passwords.antt =====
-- The rules for passwords, and the dictionary that decides nothing.
use honeypot_m1spro.Base.{
  ℕ, ◌≤◌, ◌<◌, Char, String, ◌≡◌, refl, ap, ◌≢◌, ◌↔◌, true, false, List, [], ◌∷◌, arith, All, size,
  size-append, ==-false, any_char,
}
use honeypot_m1spro.Validators.Chars.{is_upper, is_lower, is_digit, is_special, lower_char, lower}
use honeypot_m1spro.Validators.{one_of, common_passwords, validate_password}

-- Lower case does not shorten a text, if it erases no character.
size-lower :
    (wide : Char → String)
    → ((c : Char) → 1 ≤ size (wide c))
    → (s : String) → size s ≤ size (lower wide s)
unfolding lower lower_char
size-lower wide h String.[] = omega arith
size-lower wide h (String.◌∷◌ c s) =
    ground (arith, size-lower wide h s, size-append (lower_char wide c) (lower wide s), h c)

not-one_of_long :
    (s : String) (n : ℕ) (words : List String)
    → All (λ w. size w < n) words
    → n ≤ size s
    → one_of s words ≡ false
unfolding one_of
not-one_of_long s n [] h k = refl
not-one_of_long s n (w ∷ words) (here, more) k =
    let apart : s ≢ w = λ e. absurd (omega (arith, ap size e)) in
    rw (==-false s w apart) (not-one_of_long s n words more k)

-- What a password needs.
abbrev pub IsStrong : String → Type 0
IsStrong s =
    (12 ≤ size s)
    × (any_char is_upper s ≡ true)
    × (any_char is_lower s ≡ true)
    × (any_char is_digit s ≡ true)
    × (any_char is_special s ≡ true)

-- A password is accepted exactly when it has twelve characters, an upper and a lower case letter, a
-- digit and another character: the dictionary of common passwords, all shorter, rejects nothing.
pub validate_password_iff :
    (wide : Char → String)
    → ((c : Char) → 1 ≤ size (wide c))
    → (s : String) → ((validate_password wide s).0 ≡ true) ↔ IsStrong s
unfolding validate_password
validate_password_iff wide h s =
    ground
      (arith, size-lower wide h s, not-one_of_long (lower wide s) 12 common_passwords (omega arith))
