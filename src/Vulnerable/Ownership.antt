-- ===== src/Vulnerable/Ownership.antt =====
-- vuln_app/main.py: what the routes ignore.
use text.Mathlib.TextLemmas.{nil-append, cons-append}
use honeypot_m1spro.Base.{
  split_on, Char, code, String, ◌≡◌, refl, ap, ◌∙◌, true, false, Option, some, ◌∷◌, arith, ◌<>◌,
  skip-size, has_char,
}
use honeypot_m1spro.Vulnerable.{VulnDb}
use honeypot_m1spro.Vulnerable.Token.{
  starts_lower, second_part, payload_of, not_null, decode_token, decode_unverified, require_user,
  Codec,
}
use honeypot_m1spro.Vulnerable.Routes.{with_user, get_note, delete_note, get_secret, delete_secret}

-- Whoever asks, as long as the token names somebody, each note and each secret is read and deleted
-- alike: the owner does not matter.
pub ownership_ignored :
    (k : Codec) (a b : Option String) (one two : String)
    → require_user k a ≡ some (some one)
    → require_user k b ≡ some (some two)
    → (id : String) (db : VulnDb)
    → (get_note k a id db ≡ get_note k b id db)
      × (delete_note k a id db ≡ delete_note k b id db)
      × (get_secret k a id db ≡ get_secret k b id db)
      × (delete_secret k a id db ≡ delete_secret k b id db)
unfolding get_note delete_note get_secret delete_secret with_user
ownership_ignored k a b one two e f id db = rw (e, f) (refl, refl, refl, refl)

starts_lower-append : (s t p : String) → starts_lower s p ≡ true → starts_lower (s <> t) p ≡ true
starts_lower-append s t String.[] h = refl
starts_lower-append String.[] t (String.◌∷◌ d p) h = cc
starts_lower-append (String.◌∷◌ c s) t (String.◌∷◌ d p) h =
    rw (cons-append c s t) (ground (arith, starts_lower-append s t p))

-- What stands before a separator is the first part.
split_on-append :
    (sep : Char) (s t : String)
    → has_char (code sep) s ≡ false
    → split_on (code sep) (s <> String.◌∷◌ sep t) ≡ s ∷ split_on (code sep) t
unfolding split_on
split_on-append sep String.[] t h = rw (nil-append (String.◌∷◌ sep t)) (ground arith)
split_on-append sep (String.◌∷◌ c s) t h =
    rw (cons-append c s (String.◌∷◌ sep t)) (ground (arith, split_on-append sep s t))

-- The second of three parts.
pub second_part_lem :
    (h p s : String)
    → has_char b'.' h ≡ false
    → has_char b'.' p ≡ false
    → second_part (split_on b'.' (h <> "." <> p <> "." <> s)) ≡ some p
second_part_lem h p s no_dot no_dot' =
    let tail : String = p <> "." <> s in
    ap (λ t. second_part (split_on b'.' (h <> t)))
      (cons-append "." "" tail ∙ ap (String.◌∷◌ ".") (nil-append tail))
    ∙ ap second_part (split_on-append "." h tail no_dot)
    ∙ ap (λ t. second_part (h ∷ split_on b'.' (p <> t)))
        (cons-append "." "" s ∙ ap (String.◌∷◌ ".") (nil-append s))
    ∙ ap (λ ps. second_part (h ∷ ps)) (split_on-append "." p s no_dot')

-- A bearer token of three parts is read by its second part alone: the header, which names the
-- algorithm, and the signature may be anything.
pub decode_unverified_unsigned :
    (k : Codec) (h p s : String)
    → has_char b'.' h ≡ false
    → has_char b'.' p ≡ false
    → decode_unverified k (some ("Bearer " <> h <> "." <> p <> "." <> s))
      ≡ not_null (payload_of k (some p))
unfolding decode_unverified
decode_unverified_unsigned k h p s no_dot no_dot' =
    let token : String = h <> "." <> p <> "." <> s in
    rw (starts_lower-append "Bearer " token "bearer " refl) (
      ap (decode_token k) (skip-size "Bearer " token)
      ∙ ap (λ part. not_null (payload_of k part)) (second_part_lem h p s no_dot no_dot'))
