-- ===== src/Validators/Hosts.antt =====
-- What an accepted host name is made of.
use honeypot_m1spro.Base.{
  split_on, ℕ, ◌≤◌, code, String, ◌≡◌, refl, inl, inr, Bool, true, false, ◌&&◌, ◌||◌, List, [], ◌∷◌,
  arith, ◌==◌, ltb, leb, eqb, eqb_iff, Bool-cases, &&-true, all, All, size, all_chars,
  all_chars_of_split_on,
}
use honeypot_m1spro.Validators.Chars.{is_label_char, chomp}
use honeypot_m1spro.Validators.{label_re, is_safe_hostname}

-- ASCII letters and digits, the dash, the dot and the line feed: the characters that can reach the
-- command line of `ping` in a host name.
abbrev pub is_host_char : ℕ → Bool
is_host_char n =
    leb 97 n && leb n 122
    || leb 65 n && leb n 90
    || leb 48 n && leb n 57
    || eqb n b'-'
    || eqb n b'.'
    || eqb n b'\n'

-- A text holds the characters of its `chomp` and perhaps one line feed.
all_chars_of_chomp :
    (p : ℕ → Bool) (s : String) → p 10 ≡ true → all_chars p (chomp s) ≡ true → all_chars p s ≡ true
unfolding chomp
all_chars_of_chomp p String.[] h k = refl
all_chars_of_chomp p (String.◌∷◌ c String.[]) h k = elim (Bool-cases (eqb (code c) 10)) [
  | inl feed ↦ let here : p (code c) ≡ true = rw ((eqb_iff (code c) 10).0 feed) h in rw here refl
  | inr other ↦ rw other at k
]
all_chars_of_chomp p (String.◌∷◌ c (String.◌∷◌ d s)) h k =
    let (here, more) = &&-true (p (code c)) _ k in
    rw here (all_chars_of_chomp p (String.◌∷◌ d s) h more)

all_chars-weaken :
    (p q : ℕ → Bool) (s : String)
    → ((n : ℕ) → p n ≡ true → q n ≡ true)
    → all_chars p s ≡ true
    → all_chars q s ≡ true
all_chars-weaken p q String.[] h k = refl
all_chars-weaken p q (String.◌∷◌ c s) h k =
    let (here, more) = &&-true (p (code c)) _ k in
    rw (h (code c) here) (all_chars-weaken p q s h more)

label_re-chars : (part : String) → label_re part ≡ true → all_chars is_host_char part ≡ true
unfolding label_re
label_re-chars part h =
    let body : all_chars is_label_char (chomp part) ≡ true = ground arith in
    all_chars_of_chomp is_host_char part refl
      (all_chars-weaken is_label_char is_host_char (chomp part) (λ n k. ground arith) body)

All-of_all :
    (p : String → Bool) (q : ℕ → Bool) (parts : List String)
    → ((t : String) → p t ≡ true → all_chars q t ≡ true)
    → all p parts ≡ true
    → All (λ t. all_chars q t ≡ true) parts
All-of_all p q [] h k = tt
All-of_all p q (t ∷ parts) h k =
    let (here, more) = &&-true (p t) _ k in (h t here, All-of_all p q parts h more)

-- An accepted host name has at most 253 characters, and each is an ASCII letter, a digit, a dash, a
-- dot or a line feed: no blank, quote, semicolon, dollar or slash reaches the command line.
pub is_safe_hostname-chars :
    (host : String)
    → is_safe_hostname host ≡ true
    → (size host ≤ 253) × (all_chars is_host_char host ≡ true)
unfolding is_safe_hostname
is_safe_hostname-chars host h = elim (Bool-cases (host == "" || ltb 253 (size host))) [
  | inl bad ↦ let no : false ≡ true = rw bad at h in cc
  | inr good ↦
      let parts : all label_re (split_on b'.' host) ≡ true = rw good at h in
      (
        ground arith,
        all_chars_of_split_on is_host_char b'.' host refl
            (All-of_all label_re is_host_char (split_on b'.' host) label_re-chars parts),
      )
]
