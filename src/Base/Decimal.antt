-- ===== src/Base/Decimal.antt =====
-- `str` on numbers: decimal digits, and reading them back.
use Prim.Native.Nat.{ℕ, zero, suc, ◌+◌, ◌-◌, ◌*◌, ◌/◌, ◌%◌, ◌<◌}
use Prim.Native.Char.{Char, code}
use Prim.Native.String.{String, [], ◌∷◌}
use mathlib.Core.Path.{◌≡◌, refl, ap, ◌∙◌}
use mathlib.Core.Logic.{inl, inr}
use mathlib.Core.Bool.{true, false, ◌&&◌}
use native.Mathlib.Omega.{arith}
use text.Mathlib.TextLemmas.{nil-append, cons-append, append_assoc}
use honeypot_m1spro.Base.Tests.{ltb, leb, if◌then◌else◌, Bool-cases}
use honeypot_m1spro.Base.Text.{◌<>◌}

abbrev digit : ℕ → Char
digit zero = "0"
digit (suc zero) = "1"
digit (suc (suc zero)) = "2"
digit (suc (suc (suc zero))) = "3"
digit (suc (suc (suc (suc zero)))) = "4"
digit (suc (suc (suc (suc (suc zero))))) = "5"
digit (suc (suc (suc (suc (suc (suc zero)))))) = "6"
digit (suc (suc (suc (suc (suc (suc (suc zero))))))) = "7"
digit (suc (suc (suc (suc (suc (suc (suc (suc zero)))))))) = "8"
digit _ = "9"

-- On fuel above the number, which a division by ten keeps.
unfoldable pub decimal_on : ℕ → ℕ → String
decimal_on zero n = ""
decimal_on (suc fuel) n =
    let front = decimal_on fuel (n / 10) in
    if ltb n 10 then digit n ∷ "" else front <> (digit (n % 10) ∷ "")

-- `str(n)`.
abbrev pub decimal : ℕ → String
decimal n = decimal_on (suc n) n

-- The number in front of a text, after the digits read so far.
abbrev pub read_number : ℕ → String → ℕ
read_number n [] = n
read_number n (c ∷ s) =
    let more = read_number (n * 10 + (code c - 48)) s in
    elim (leb 48 (code c) && leb (code c) 57) [ true ↦ more | false ↦ n ]

code-digit : (n : ℕ) → n < 10 → code (digit n) ≡ 48 + n
code-digit zero h = refl
code-digit (suc zero) h = refl
code-digit (suc (suc zero)) h = refl
code-digit (suc (suc (suc zero))) h = refl
code-digit (suc (suc (suc (suc zero)))) h = refl
code-digit (suc (suc (suc (suc (suc zero))))) h = refl
code-digit (suc (suc (suc (suc (suc (suc zero)))))) h = refl
code-digit (suc (suc (suc (suc (suc (suc (suc zero))))))) h = refl
code-digit (suc (suc (suc (suc (suc (suc (suc (suc zero)))))))) h = refl
code-digit (suc (suc (suc (suc (suc (suc (suc (suc (suc n))))))))) h = ground arith

read_digit :
    (m n : ℕ) (t : String) → n < 10 → read_number m (digit n ∷ t) ≡ read_number (m * 10 + n) t
read_digit m n t h = ground (arith, code-digit n h)

-- Decimal digits read back as the number.
pub read_number-decimal_on :
    (fuel n : ℕ) (t : String) → n < fuel → read_number 0 (decimal_on fuel n <> t) ≡ read_number n t
unfolding decimal_on
read_number-decimal_on zero n t h = absurd (omega arith)
read_number-decimal_on (suc fuel) n t h = elim (Bool-cases (ltb n 10)) [
  | inl small ↦ rw small (
      ap (read_number 0) (cons-append (digit n) "" t ∙ ap (λ s. digit n ∷ s) (nil-append t))
      ∙ read_digit 0 n t (ground arith)
      ∙ ap (λ k. read_number k t) (omega arith))
  | inr large ↦
      let last : String = digit (n % 10) ∷ "" in
      rw large (
        ap (read_number 0) (append_assoc (decimal_on fuel (n / 10)) last t)
        ∙ read_number-decimal_on fuel (n / 10) (last <> t) (ground arith)
        ∙ ap (read_number (n / 10))
            (cons-append (digit (n % 10)) "" t ∙ ap (λ s. digit (n % 10) ∷ s) (nil-append t))
        ∙ read_digit (n / 10) (n % 10) t (omega arith)
        ∙ ap (λ k. read_number k t) (omega arith))
]
