-- ===== src/Pipeline/Written.antt =====
-- honeypots/common/events.py: the lines of a file that `EventWriter` writes.
use text.Mathlib.TextLemmas.{nil-append, cons-append, append-nil, append_assoc, cons-ne-nil}
use honeypot_m1spro.Base.{
  Char, code, String, ◌≡◌, refl, sym, ap, ◌∙◌, Bool, true, false, not, ◌&&◌, Option, some, List, [],
  ◌∷◌, ◌++◌, map, arith, ◌==◌, eqb, All, ◌<>◌, size, ==-false,
}
use honeypot_m1spro.Analyzer.Shipper.{
  with_head, read_line, read_lines, is_space, lstrip, cons_kept, rstrip, strip,
}
use honeypot_m1spro.Analyzer.Shipping.{
  ends_line, lines_of, read_line_other, lines_of-cons, lines_of-append,
}
use honeypot_m1spro.Pipeline.{write, write_all}

-- No line break in a text.
abbrev pub no_break : String → Bool
no_break String.[] = true
no_break (String.◌∷◌ c s) = not (eqb (code c) b'\n') && not (eqb (code c) b'\r') && no_break s

-- What `json.dumps` makes of an event: an object on one line, which the parser reads back.
abbrev pub IsPrinted : {J : Type 0} → (J → String) → (String → Option J) → J → Type 0
IsPrinted dumps loads event =
    (m : String) × (dumps event ≡ "{" <> m <> "}")
    × (no_break (dumps event) ≡ true)
    × (loads (dumps event) ≡ some event)

cons_kept-brace : (c : Char) (m : String) → cons_kept c (m <> "}") ≡ String.◌∷◌ c (m <> "}")
cons_kept-brace c String.[] = rw (nil-append "}") refl
cons_kept-brace c (String.◌∷◌ d m) = rw (cons-append d m "}") refl

rstrip_brace : (m : String) → rstrip (m <> "}\n") ≡ m <> "}"
rstrip_brace String.[] = refl
rstrip_brace (String.◌∷◌ c m) =
    ap rstrip (cons-append c m "}\n")
    ∙ ap (cons_kept c) (rstrip_brace m)
    ∙ cons_kept-brace c m
    ∙ sym (cons-append c m "}")

-- A text that begins with more than white space.
abbrev solid : String → Bool
solid String.[] = false
solid (String.◌∷◌ c s) = not (is_space (code c))

lstrip_solid :
    (c : Char) (s : String) → is_space (code c) ≡ false → lstrip (String.◌∷◌ c s) ≡ String.◌∷◌ c s
lstrip_solid c s e = rw (lstrip, e) refl

strip-solid : (s m : String) → solid s ≡ true → strip (s <> (m <> "}\n")) ≡ s <> (m <> "}")
strip-solid String.[] m h = absurd (ground arith)
strip-solid (String.◌∷◌ c s) m h =
    ap strip (cons-append c s (m <> "}\n"))
    ∙ ap rstrip (lstrip_solid c (s <> (m <> "}\n")) (ground arith))
    ∙ ap (λ t. cons_kept c (rstrip t)) (sym (append_assoc s m "}\n"))
    ∙ ap (cons_kept c) (rstrip_brace (s <> m))
    ∙ cons_kept-brace c (s <> m)
    ∙ ap (String.◌∷◌ c) (append_assoc s m "}")
    ∙ sym (cons-append c s (m <> "}"))

solid-append : (s t : String) → solid s ≡ true → ((s <> t) == "") ≡ false
solid-append String.[] t h = absurd (ground arith)
solid-append (String.◌∷◌ c s) t h =
    ==-false (String.◌∷◌ c s <> t) "" (λ e. cons-ne-nil c (s <> t) (sym (cons-append c s t) ∙ e))

-- The line feed is all that `strip` takes from a printed line.
pub strip_printed : (m : String) → strip (("{" <> m <> "}") <> "\n") ≡ "{" <> m <> "}"
strip_printed m =
    ap strip (append_assoc "{" (m <> "}") "\n" ∙ ap (λ t. "{" <> t) (append_assoc m "}" "\n"))
    ∙ strip-solid "{" m refl

read_line_written : (t : String) → no_break t ≡ true → read_line (t <> "\n") ≡ (t <> "\n", "")
read_line_written String.[] h = unfold read_line in refl
read_line_written (String.◌∷◌ c t) h =
    ap read_line (cons-append c t "\n")
    ∙ read_line_other c (t <> "\n") (ground arith) (ground arith)
    ∙ ap (with_head c) (read_line_written t (ground arith))
    ∙ ap (λ u. (u, "")) (sym (cons-append c t "\n"))

ends_line-written : (t : String) → ends_line (t <> "\n") ≡ true
ends_line-written String.[] = refl
ends_line-written (String.◌∷◌ c String.[]) =
    ap ends_line (cons-append c "" "\n" ∙ ap (String.◌∷◌ c) (nil-append "\n"))
ends_line-written (String.◌∷◌ c (String.◌∷◌ d t)) =
    ap ends_line (cons-append c (String.◌∷◌ d t) "\n")
    ∙ ap (λ s. ends_line (String.◌∷◌ c s)) (cons-append d t "\n")
    ∙ ap ends_line (sym (cons-append d t "\n"))
    ∙ ends_line-written (String.◌∷◌ d t)

ends_line-cons :
    (c : Char) (t : String)
    → ends_line (String.◌∷◌ c "") ≡ true
    → ends_line t ≡ true
    → ends_line (String.◌∷◌ c t) ≡ true
ends_line-cons c String.[] h k = h
ends_line-cons c (String.◌∷◌ d t) h k = k

ends_line-append :
    (s t : String) → ends_line s ≡ true → ends_line t ≡ true → ends_line (s <> t) ≡ true
ends_line-append String.[] t h k = ap ends_line (nil-append t) ∙ k
ends_line-append (String.◌∷◌ c String.[]) t h k =
    ap ends_line (cons-append c "" t ∙ ap (String.◌∷◌ c) (nil-append t)) ∙ ends_line-cons c t h k
ends_line-append (String.◌∷◌ c (String.◌∷◌ d s)) t h k =
    ap ends_line (cons-append c (String.◌∷◌ d s) t)
    ∙ ap (λ u. ends_line (String.◌∷◌ c u)) (cons-append d s t)
    ∙ ap ends_line (sym (cons-append d s t))
    ∙ ends_line-append (String.◌∷◌ d s) t h k

lines_of-written : (t : String) → no_break t ≡ true → lines_of (t <> "\n") ≡ (t <> "\n") ∷ []
lines_of-written String.[] h = unfold read_lines read_line in refl
lines_of-written (String.◌∷◌ c t) h =
    ap lines_of (cons-append c t "\n")
    ∙ lines_of-cons c (t <> "\n")
    ∙ ap (λ s. (read_line s).0 ∷ lines_of (read_line s).1) (sym (cons-append c t "\n"))
    ∙ ap (λ p. p.0 ∷ lines_of p.1) (read_line_written (String.◌∷◌ c t) h)
    ∙ unfold read_lines in refl

module _ {J : Type 0} (dumps : J → String) (loads : String → Option J) where
  pub strip-written : (e : J) → IsPrinted dumps loads e → strip (dumps e <> "\n") ≡ dumps e
  strip-written e (m, is, flat, back) = ap (λ t. strip (t <> "\n")) is ∙ strip_printed m ∙ sym is

  pub solid-written : (e : J) → IsPrinted dumps loads e → (dumps e == "") ≡ false
  solid-written e (m, is, flat, back) = ap (λ t. t == "") is ∙ solid-append "{" (m <> "}") refl

  pub write_all-append :
      (events : List J) (content : String)
      → write_all dumps events content ≡ content <> write_all dumps events ""
  unfolding write_all write
  write_all-append [] content = sym (append-nil content)
  write_all-append (e ∷ events) content =
      let first = dumps e <> "\n" in
      let later = write_all dumps events "" in
      write_all-append events (content <> first)
      ∙ append_assoc content first later
      ∙ ap (λ t. content <> t)
          (sym
            (ap (λ t. write_all dumps events t) (nil-append first) ∙ write_all-append events first))

  -- The lines of a file that was written from the start are those of its events.
  pub lines_of-write_all :
      (events : List J)
      → All (IsPrinted dumps loads) events
      → (lines_of (write_all dumps events "") ≡ map (λ e. dumps e <> "\n") events)
        × (ends_line (write_all dumps events "") ≡ true)
  lines_of-write_all [] h = unfold read_lines write_all in (refl, refl)
  lines_of-write_all (e ∷ events) ((m, is, flat, back), more) =
      let first = dumps e <> "\n" in
      let later = write_all dumps events "" in
      let (lines, ends) = lines_of-write_all events more in
      let split : write_all dumps (e ∷ events) "" ≡ first <> later =
        unfold write_all write in
        ap (λ t. write_all dumps events t) (nil-append first) ∙ write_all-append events first in
      (
        ap lines_of split
            ∙ lines_of-append (size first) first later (omega arith) (ends_line-written (dumps e))
            ∙ ap (λ ls. ls ++ lines_of later) (lines_of-written (dumps e) flat)
            ∙ ap (λ ls. first ∷ ls) lines,
        ap ends_line split ∙ ends_line-append first later (ends_line-written (dumps e)) ends,
      )
