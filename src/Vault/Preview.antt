-- ===== src/Vault/Preview.antt =====
-- What the preview of a secret tells of it.
use text.Mathlib.TextLemmas.{nil-append, cons-append, append_assoc}
use honeypot_m1spro.Base.{
  ℕ, zero, suc, ◌+◌, ◌-◌, ◌≤◌, String, ◌≡◌, refl, sym, ap, subst, ◌∙◌, false, arith, leb, ◌<>◌,
  size, size-append, skip, keep,
}
use honeypot_m1spro.Vault.{bullets, mask}

keep-append : (n : ℕ) (a b : String) → n ≤ size a → keep n (a <> b) ≡ keep n a
keep-append zero a b h = refl
keep-append (suc n) String.[] b h = absurd (omega arith)
keep-append (suc n) (String.◌∷◌ c a) b h =
    rw cons-append (ap (λ t. String.◌∷◌ c t) (keep-append n a b (omega arith)))

skip-append : (a b : String) → skip (size a) (a <> b) ≡ b
skip-append String.[] b = rw nil-append refl
skip-append (String.◌∷◌ c a) b = rw cons-append (skip-append a b)

-- The preview of a longer text is made of its ends.
mask-long :
    (first middle last : String)
    → size first ≡ 2
    → size last ≡ 2
    → 1 ≤ size middle
    → mask (first <> middle <> last) ≡ keep 2 first <> bullets 6 <> last
unfolding mask
mask-long first middle last a b h =
    let total : size (first <> middle <> last) ≡ size (first <> middle) + 2 = omega (
      arith,
      size-append first (middle <> last),
      size-append middle last,
      size-append first middle,
    ) in
    let long : leb (size (first <> middle <> last)) 4 ≡ false =
      ground (arith, total, size-append first middle) in
    let cut : size (first <> middle) ≡ size (first <> middle <> last) - 2 = omega (arith, total) in
    let tail : skip (size (first <> middle <> last) - 2) (first <> middle <> last) ≡ last =
      subst (λ n. skip n (first <> middle <> last) ≡ last) cut
        (rw (← append_assoc first middle last) (skip-append (first <> middle) last)) in
    rw (long, tail, keep-append 2 first (middle <> last) (omega arith)) refl

-- The preview of a secret of five characters or more tells its first two and its last two
-- characters and nothing else, not even its length.
pub mask-hides :
    (first last middle other : String)
    → size first ≡ 2
    → size last ≡ 2
    → 1 ≤ size middle
    → 1 ≤ size other
    → mask (first <> middle <> last) ≡ mask (first <> other <> last)
mask-hides first last middle other a b h k =
    mask-long first middle last a b h ∙ sym (mask-long first other last a b k)
