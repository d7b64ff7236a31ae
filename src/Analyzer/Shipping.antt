-- ===== src/Analyzer/Shipping.antt =====
-- analyzer/shipper.py: which lines a poll sends.
use text.Mathlib.TextLemmas.{nil-append, cons-append, append-nil, append_assoc}
use honeypot_m1spro.Base.{
  ℕ, zero, suc, ◌≤◌, Char, code, String, ◌≡◌, refl, sym, ap, ◌∙◌, inl, inr, Bool, true, false,
  Option, List, [], ◌∷◌, ◌++◌, arith, ltb, eqb, Bool-cases, All, ◌<>◌, size, size-append, skip-size,
}
use honeypot_m1spro.Analyzer.Shipper.{
  with_head, drop_feed, read_line, add_line, read_lines, ship_line, ship_lines, poll_file, Sent,
}

-- `"".join(lines)`.
abbrev pub concat : List String → String
concat [] = ""
concat (line ∷ lines) = line <> concat lines

size-drop_feed : (s : String) → size (drop_feed s) ≤ size s
size-drop_feed String.[] = omega arith
size-drop_feed (String.◌∷◌ c s) = ground arith

size-read_line : (s : String) → size (read_line s).1 ≤ size s
unfolding read_line
size-read_line String.[] = omega arith
size-read_line (String.◌∷◌ c s) = ground (arith, size-read_line s, size-drop_feed s)

size-read_line_cons : (c : Char) (s : String) → size (read_line (String.◌∷◌ c s)).1 ≤ size s
unfolding read_line
size-read_line_cons c s = ground (arith, size-read_line s, size-drop_feed s)

-- The loop over the lines of a file ends at its end.
read_lines_ends : (fuel : ℕ) (s : String) → size s ≤ fuel → (read_lines fuel s).1 ≡ ""
unfolding read_lines
read_lines_ends zero String.[] h = refl
read_lines_ends zero (String.◌∷◌ c s) h = absurd (omega arith)
read_lines_ends (suc fuel) String.[] h = refl
read_lines_ends (suc fuel) (String.◌∷◌ c s) h =
    read_lines_ends fuel (read_line (String.◌∷◌ c s)).1 (omega (arith, size-read_line_cons c s, h))

-- More fuel changes nothing.
pub read_lines_enough :
    (fuel more : ℕ) (s : String)
    → size s ≤ fuel
    → size s ≤ more
    → read_lines fuel s ≡ read_lines more s
unfolding read_lines
read_lines_enough zero zero s h k = refl
read_lines_enough zero (suc more) String.[] h k = refl
read_lines_enough zero (suc more) (String.◌∷◌ c s) h k = absurd (omega arith)
read_lines_enough (suc fuel) zero String.[] h k = refl
read_lines_enough (suc fuel) zero (String.◌∷◌ c s) h k = absurd (omega arith)
read_lines_enough (suc fuel) (suc more) String.[] h k = refl
read_lines_enough (suc fuel) (suc more) (String.◌∷◌ c s) h k =
    let r = read_line (String.◌∷◌ c s) in
    ap (add_line r.0) (
      read_lines_enough fuel more r.1 (omega (arith, size-read_line_cons c s, h))
        (omega (arith, size-read_line_cons c s, k)))

-- A text of whole lines: nothing, or a line feed at its end.
abbrev pub ends_line : String → Bool
ends_line String.[] = true
ends_line (String.◌∷◌ c String.[]) = eqb (code c) b'\n'
ends_line (String.◌∷◌ c (String.◌∷◌ d s)) = ends_line (String.◌∷◌ d s)

abbrev pub lines_of : String → List String
lines_of s = (read_lines (size s) s).0

read_line_feed :
    (c : Char) (s : String)
    → eqb (code c) b'\n' ≡ true
    → read_line (String.◌∷◌ c s) ≡ (String.◌∷◌ c "", s)
unfolding read_line
read_line_feed c s e = rw e refl

read_line_return :
    (c : Char) (s : String)
    → eqb (code c) b'\n' ≡ false
    → eqb (code c) b'\r' ≡ true
    → read_line (String.◌∷◌ c s) ≡ ("\n", drop_feed s)
unfolding read_line
read_line_return c s e f = rw (e, f) refl

pub read_line_other :
    (c : Char) (s : String)
    → eqb (code c) b'\n' ≡ false
    → eqb (code c) b'\r' ≡ false
    → read_line (String.◌∷◌ c s) ≡ with_head c (read_line s)
unfolding read_line
read_line_other c s e f = rw (e, f) refl

-- The first line of whole lines is the first line of what follows too.
abbrev followed : String → String × String → String × String
followed t (line, rest) = (line, rest <> t)

drop_feed-whole :
    (d : Char) (s t : String)
    → ends_line (String.◌∷◌ d s) ≡ true
    → (drop_feed (String.◌∷◌ d s <> t) ≡ drop_feed (String.◌∷◌ d s) <> t)
      × (ends_line (drop_feed (String.◌∷◌ d s)) ≡ true)
drop_feed-whole d s t h = elim (Bool-cases (eqb (code d) b'\n')) [
  | inl e ↦ (ap drop_feed (cons-append d s t) ∙ rw e refl, rw e (tail s h))
  | inr e ↦ (ap drop_feed (cons-append d s t) ∙ rw e (sym (cons-append d s t)), rw e h)
]
  where
    tail : (s : String) → ends_line (String.◌∷◌ d s) ≡ true → ends_line s ≡ true
    tail String.[] k = refl
    tail (String.◌∷◌ c s) k = k

read_line-whole :
    (c : Char) (s t : String)
    → ends_line (String.◌∷◌ c s) ≡ true
    → (read_line (String.◌∷◌ c (s <> t)) ≡ followed t (read_line (String.◌∷◌ c s)))
      × (ends_line (read_line (String.◌∷◌ c s)).1 ≡ true)
read_line-whole c String.[] t h = (
  read_line_feed c ("" <> t) h ∙ ap (followed t) (sym (read_line_feed c "" h)),
  ap (λ p. ends_line p.1) (read_line_feed c "" h),
)
read_line-whole c (String.◌∷◌ d s) t h = elim (Bool-cases (eqb (code c) b'\n')) [
  | inl e ↦ (
    read_line_feed c (String.◌∷◌ d s <> t) e
        ∙ ap (followed t) (sym (read_line_feed c (String.◌∷◌ d s) e)),
    ap (λ p. ends_line p.1) (read_line_feed c (String.◌∷◌ d s) e) ∙ h,
  )
  | inr e ↦ elim (Bool-cases (eqb (code c) b'\r')) [
    | inl f ↦
        let (dropped, whole) = drop_feed-whole d s t h in
        (
          read_line_return c (String.◌∷◌ d s <> t) e f
              ∙ ap (λ r. ("\n", r)) dropped
              ∙ ap (followed t) (sym (read_line_return c (String.◌∷◌ d s) e f)),
          ap (λ p. ends_line p.1) (read_line_return c (String.◌∷◌ d s) e f) ∙ whole,
        )
    | inr f ↦
        let (first, whole) = read_line-whole d s t h in
        (
          read_line_other c (String.◌∷◌ d s <> t) e f
              ∙ ap (λ u. with_head c (read_line u)) (cons-append d s t)
              ∙ ap (with_head c) first
              ∙ ap (followed t) (sym (read_line_other c (String.◌∷◌ d s) e f)),
          ap (λ p. ends_line p.1) (read_line_other c (String.◌∷◌ d s) e f) ∙ whole,
        )
  ]
]

pub lines_of-cons :
    (c : Char) (s : String)
    → lines_of (String.◌∷◌ c s)
      ≡ (read_line (String.◌∷◌ c s)).0 ∷ lines_of (read_line (String.◌∷◌ c s)).1
lines_of-cons c s =
    let r = read_line (String.◌∷◌ c s) in
    unfold read_lines in
    ap (λ p. r.0 ∷ p.0)
      (read_lines_enough (size s) (size r.1) r.1 (size-read_line_cons c s) (omega arith))

-- The lines of a text that follows whole lines come after theirs.
pub lines_of-append :
    (fuel : ℕ) (s t : String)
    → size s ≤ fuel
    → ends_line s ≡ true
    → lines_of (s <> t) ≡ lines_of s ++ lines_of t
lines_of-append fuel String.[] t h e = ap lines_of (nil-append t) ∙ unfold read_lines in refl
lines_of-append zero (String.◌∷◌ c s) t h e = absurd (omega arith)
lines_of-append (suc fuel) (String.◌∷◌ c s) t h e =
    let r = read_line (String.◌∷◌ c s) in
    let (first, whole) = read_line-whole c s t e in
    ap lines_of (cons-append c s t)
    ∙ lines_of-cons c (s <> t)
    ∙ ap (λ p. p.0 ∷ lines_of p.1) first
    ∙ ap (λ ls. r.0 ∷ ls)
        (lines_of-append fuel r.1 t (omega (arith, size-read_line_cons c s, h)) whole)
    ∙ ap (λ ls. ls ++ lines_of t) (sym (lines_of-cons c s))

module _ {J : Type 0} (loads : String → Option J) where
  ship_lines-append :
      (xs ys : List String) (sent : Sent J)
      → ship_lines loads (xs ++ ys) sent ≡ ship_lines loads ys (ship_lines loads xs sent)
  unfolding ship_lines
  ship_lines-append [] ys sent = refl
  ship_lines-append (x ∷ xs) ys sent = ship_lines-append xs ys (ship_line loads x sent)

  -- A poll at the end of what was read sends the lines that were added.
  pub poll_file-added :
      (content added : String) (sent : Sent J)
      → poll_file loads (content <> added) (size content) sent
        ≡ (size (content <> added), ship_lines loads (lines_of added) sent)
  unfolding poll_file
  poll_file-added content added sent =
      let kept : ltb (size (content <> added)) (size content) ≡ false =
        ground (arith, size-append content added) in
      let nothing : size (read_lines (size added) added).1 ≡ 0 =
        ap size (read_lines_ends (size added) added (omega arith)) in
      rw (kept, skip-size content added)
        (ap (λ n. (n, ship_lines loads (lines_of added) sent))
          (omega (arith, nothing, size-append content added)))

  -- Polls after each of some additions to a file.
  abbrev pub poll_each : String → List String → ℕ × Sent J → ℕ × Sent J
  poll_each content [] s = s
  poll_each content (added ∷ rest) s =
      poll_each (content <> added) rest (poll_file loads (content <> added) s.0 s.1)

  -- However the lines of a file come in and whenever it is polled, as long as what is added before a
  -- poll is whole lines, each line is sent once, in order, and the offset ends at the end of the file.
  pub poll_each_exact :
      (content : String) (chunks : List String) (sent : Sent J)
      → All (λ chunk. ends_line chunk ≡ true) chunks
      → poll_each content chunks (size content, sent)
        ≡ (size (content <> concat chunks), ship_lines loads (lines_of (concat chunks)) sent)
  poll_each_exact content [] sent h =
      unfold read_lines ship_lines in ap (λ t. (size t, sent)) (sym (append-nil content))
  poll_each_exact content (added ∷ rest) sent (here, more) =
      ap (poll_each (content <> added) rest) (poll_file-added content added sent)
      ∙ poll_each_exact (content <> added) rest (ship_lines loads (lines_of added) sent) more
      ∙ ap
          (λ t. (
            size t,
            ship_lines loads (lines_of (concat rest)) (ship_lines loads (lines_of added) sent),
          ))
          (append_assoc content added (concat rest))
      ∙ ap (λ x. (size (content <> added <> concat rest), x))
          (sym (
            ap (λ ls. ship_lines loads ls sent)
              (lines_of-append (size added) added (concat rest) (omega arith) here)
            ∙ ship_lines-append (lines_of added) (lines_of (concat rest)) sent))
