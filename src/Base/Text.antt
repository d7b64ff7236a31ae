-- ===== src/Base/Text.antt =====
-- Texts as Python walks them: by characters, from the front.
use Prim.Native.Nat.{ℕ, zero, suc, ◌+◌}
use Prim.Native.Char.{Char, code}
use Prim.Native.String.{String, [], ◌∷◌, ◌++◌}
use mathlib.Core.Path.{◌≡◌, refl, ap, ◌∙◌}
use mathlib.Core.Logic.{◌≢◌, inl, inr}
use mathlib.Core.Bool.{Bool, true, false, ◌&&◌, ◌||◌}
use mathlib.Core.List.{List}
use native.Mathlib.Omega.{arith}
use text.Mathlib.Text.{◌==◌}
use text.Mathlib.TextEquality.{eq_iff}
use text.Mathlib.TextLemmas.{nil-append, cons-append}
use honeypot_m1spro.Base.Lists.{All}
use honeypot_m1spro.Base.Tests.{eqb, if◌then◌else◌, eqb_iff, Bool-cases, &&-true}

-- `s + t`.
infixr 65 ◌<>◌
abbrev pub ◌<>◌ : String → String → String
s <> t = s ++ t

-- `len(s)`.
abbrev pub size : String → ℕ
size [] = 0
size (c ∷ s) = suc (size s)

pub size-append : (s t : String) → size (s <> t) ≡ size s + size t
size-append [] t = rw nil-append (omega arith)
size-append (c ∷ s) t = rw cons-append (omega (arith, size-append s t))

-- `s[n:]`.
abbrev pub skip : ℕ → String → String
skip zero s = s
skip (suc n) [] = ""
skip (suc n) (c ∷ s) = skip n s

pub skip-size : (s t : String) → skip (size s) (s <> t) ≡ t
skip-size [] t = nil-append t
skip-size (c ∷ s) t = ap (skip (suc (size s))) (cons-append c s t) ∙ skip-size s t

-- `s[:n]`.
abbrev pub keep : ℕ → String → String
keep zero s = ""
keep (suc n) [] = ""
keep (suc n) (c ∷ s) = c ∷ keep n s

-- `s.startswith(t)`, the prefix second.
abbrev pub starts_with : String → String → Bool
starts_with s [] = true
starts_with [] (d ∷ t) = false
starts_with (c ∷ s) (d ∷ t) = eqb (code c) (code d) && starts_with s t

-- `c in s`, for one character.
abbrev pub has_char : ℕ → String → Bool
has_char n [] = false
has_char n (c ∷ s) = if eqb (code c) n then true else has_char n s

-- `sep.join(parts)`.
abbrev pub join : String → List String → String
join sep List.[] = ""
join sep (List.◌∷◌ p List.[]) = p
join sep (List.◌∷◌ p (List.◌∷◌ q ps)) = p <> sep <> join sep (List.◌∷◌ q ps)

pub ==-false : (s t : String) → s ≢ t → (s == t) ≡ false
==-false s t h = elim (Bool-cases (s == t)) [ inl e ↦ absurd (h ((eq_iff s t).0 e)) | inr e ↦ e ]

-- `all(test(c) for c in s)` and `any(test(c) for c in s)`, on code points.
abbrev pub all_chars : (ℕ → Bool) → String → Bool
all_chars p [] = true
all_chars p (c ∷ s) = p (code c) && all_chars p s

abbrev pub any_char : (ℕ → Bool) → String → Bool
any_char p [] = false
any_char p (c ∷ s) = p (code c) || any_char p s

-- Puts a character before the first text of a list.
abbrev pub cons_head : Char → List String → List String
cons_head c List.[] = List.◌∷◌ (c ∷ "") List.[]
cons_head c (List.◌∷◌ p ps) = List.◌∷◌ (c ∷ p) ps

-- `s.split(sep)`, for a separator of one character.
unfoldable pub split_on : ℕ → String → List String
split_on sep [] = List.◌∷◌ "" List.[]
split_on sep (c ∷ s) =
    let rest = split_on sep s in if eqb (code c) sep then List.◌∷◌ "" rest else cons_head c rest

-- The characters of a text are separators or stand in one of its parts.
pub all_chars_of_split_on :
    (p : ℕ → Bool) (sep : ℕ) (s : String)
    → p sep ≡ true
    → All (λ t. all_chars p t ≡ true) (split_on sep s)
    → all_chars p s ≡ true
unfolding split_on
all_chars_of_split_on p sep [] h k = refl
all_chars_of_split_on p sep (c ∷ s) h k = elim (Bool-cases (eqb (code c) sep)) [
  | inl same ↦
      let (_, rest) = rw same at k in
      let here : p (code c) ≡ true = rw ((eqb_iff (code c) sep).0 same) h in
      rw (here, all_chars_of_split_on p sep s h rest) refl
  | inr other ↦ split_head (split_on sep s) (all_chars_of_split_on p sep s h) (rw other at k)
]
  where
    split_head :
        (ps : List String)
        → (All (λ t. all_chars p t ≡ true) ps → all_chars p s ≡ true)
        → All (λ t. all_chars p t ≡ true) (cons_head c ps)
        → (p (code c) && all_chars p s) ≡ true
    split_head List.[] ih (a, _) =
        let (here, _) = &&-true (p (code c)) true a in rw (here, ih tt) refl
    split_head (List.◌∷◌ q ps) ih (a, rest) =
        let (here, more) = &&-true (p (code c)) (all_chars p q) a in rw (here, ih (more, rest)) refl
