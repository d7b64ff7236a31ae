-- ===== src/Validators/Chars.antt =====
-- secure_app/validators.py: the character classes of the regular expressions, what `$` allows, and
-- `str.lower`.
use honeypot_m1spro.Base.{
  ℕ, zero, suc, ◌-◌, Char, code, String, Bool, not, ◌&&◌, ◌||◌, ltb, leb, eqb, if◌then◌else◌, ◌<>◌,
  has_char,
}

abbrev pub is_upper : ℕ → Bool
is_upper n = leb b'A' n && leb n b'Z'

abbrev pub is_lower : ℕ → Bool
is_lower n = leb b'a' n && leb n b'z'

abbrev pub is_digit : ℕ → Bool
is_digit n = leb b'0' n && leb n b'9'

abbrev is_alnum : ℕ → Bool
is_alnum n = is_lower n || is_upper n || is_digit n

-- `[^A-Za-z0-9]`.
abbrev pub is_special : ℕ → Bool
is_special n = not (is_alnum n)

-- `[a-zA-Z_]` and `[a-zA-Z0-9_-]`.
abbrev pub is_username_start : ℕ → Bool
is_username_start n = is_lower n || is_upper n || eqb n b'_'

abbrev pub is_username_char : ℕ → Bool
is_username_char n = is_alnum n || eqb n b'_' || eqb n b'-'

-- `[a-zA-Z0-9-]`.
abbrev pub is_label_char : ℕ → Bool
is_label_char n = is_alnum n || eqb n b'-'

-- `[a-zA-Z0-9.!#$%&'*+/=?^_`{|}~-]`.
unfoldable pub is_local_char : ℕ → Bool
is_local_char n = is_alnum n || has_char n ".!#$%&'*+/=?^_`{|}~-"

-- `$` matches at the end and before a final line feed: the text less that line feed.
unfoldable pub chomp : String → String
chomp String.[] = ""
chomp (String.◌∷◌ c String.[]) = if eqb (code c) 10 then "" else String.◌∷◌ c ""
chomp (String.◌∷◌ c (String.◌∷◌ d s)) = String.◌∷◌ c (chomp (String.◌∷◌ d s))

nth_char : ℕ → String → Char → Char
nth_char n String.[] other = other
nth_char zero (String.◌∷◌ c s) other = c
nth_char (suc n) (String.◌∷◌ c s) other = nth_char n s other

-- `s.lower()`: ASCII letters by their place in the alphabet, other ASCII characters as they are.
unfoldable pub lower_char : (Char → String) → Char → String
unfolding nth_char
lower_char wide c =
    let n = code c in
    if is_upper n
    then String.◌∷◌ (nth_char (n - b'A') "abcdefghijklmnopqrstuvwxyz" c) ""
    else if ltb n 128
    then String.◌∷◌ c ""
    else wide c

unfoldable pub lower : (Char → String) → String → String
unfolding lower_char
lower wide String.[] = ""
lower wide (String.◌∷◌ c s) = lower_char wide c <> lower wide s
