-- ===== src/Pipeline/Shipped.antt =====
-- honeypots/common/events.py with analyzer/shipper.py: what becomes of the events that are written.
use mathlib.Core.List.{append-nil, append_assoc}
use honeypot_m1spro.Base.{
  ℕ, String, ◌≡◌, refl, sym, ap, ◌∙◌, Option, List, [], ◌∷◌, ◌++◌, map, All, ◌<>◌, size,
}
use honeypot_m1spro.Analyzer.Shipper.{ship_line, ship_lines, poll_file, Sent}
use honeypot_m1spro.Analyzer.Shipping.{lines_of, poll_file-added}
use honeypot_m1spro.Pipeline.{write, write_all}
use honeypot_m1spro.Pipeline.Written.{
  IsPrinted, strip-written, solid-written, write_all-append, lines_of-write_all,
}

-- The events of some sessions, one after the other.
abbrev pub flatten {ℓ} : {A : Type ℓ} → List (List A) → List A
flatten [] = []
flatten (xs ∷ xss) = xs ++ flatten xss

Sent-cong :
    {J : Type 0} {us vs : List String} {ps qs : List J}
    → us ≡ vs
    → ps ≡ qs
    → Path (Sent J) (record { unified = us; posts = ps }) (record { unified = vs; posts = qs })
Sent-cong p q = cc

map-append : {A B : Type 0} (f : A → B) (xs ys : List A) → map f (xs ++ ys) ≡ map f xs ++ map f ys
map-append f [] ys = refl
map-append f (x ∷ xs) ys = ap (λ zs. f x ∷ zs) (map-append f xs ys)

module _ {J : Type 0} (dumps : J → String) (loads : String → Option J) where
  -- Sessions that are written to a file, with a poll of the shipper after each of them.
  abbrev pub write_poll : String → List (List J) → ℕ × Sent J → ℕ × Sent J
  write_poll content [] s = s
  write_poll content (events ∷ rest) s =
      let more = write_all dumps events content in
      write_poll more rest (poll_file loads more s.0 s.1)

  -- What is sent when some events are sent.
  abbrev pub with_events : List J → Sent J → Sent J
  with_events events sent = record {
    unified = sent.unified ++ map dumps events;
    posts = sent.posts ++ events;
  }

  with_events-nil : (sent : Sent J) → with_events [] sent ≡ sent
  with_events-nil sent = Sent-cong (append-nil sent.unified) (append-nil sent.posts)

  with_events-append :
      (xs ys : List J) (sent : Sent J)
      → with_events (xs ++ ys) sent ≡ with_events ys (with_events xs sent)
  with_events-append xs ys sent =
      Sent-cong
        (ap (λ ls. sent.unified ++ ls) (map-append dumps xs ys)
          ∙ sym (append_assoc sent.unified (map dumps xs) (map dumps ys)))
        (sym (append_assoc sent.posts xs ys))

  ship_line-written :
      (e : J) (sent : Sent J)
      → IsPrinted dumps loads e
      → ship_line loads (dumps e <> "\n") sent ≡ with_events (e ∷ []) sent
  unfolding ship_line
  ship_line-written e sent printed =
      rw (strip-written dumps loads e printed, solid-written dumps loads e printed, printed.3) refl

  ship_lines-written :
      (events : List J) (sent : Sent J)
      → All (IsPrinted dumps loads) events
      → ship_lines loads (map (λ e. dumps e <> "\n") events) sent ≡ with_events events sent
  unfolding ship_lines
  ship_lines-written [] sent h = sym (with_events-nil sent)
  ship_lines-written (e ∷ events) sent (here, more) =
      ap (λ s. ship_lines loads (map (λ e. dumps e <> "\n") events) s)
        (ship_line-written e sent here)
      ∙ ship_lines-written events (with_events (e ∷ []) sent) more
      ∙ sym (with_events-append (e ∷ []) events sent)

  write_all-concat :
      (xs ys : List J) (content : String)
      → write_all dumps (xs ++ ys) content ≡ write_all dumps ys (write_all dumps xs content)
  unfolding write_all
  write_all-concat [] ys content = refl
  write_all-concat (x ∷ xs) ys content = write_all-concat xs ys (write dumps x content)

  -- A poll after a session sends its events.
  poll_file-written :
      (events : List J) (content : String) (sent : Sent J)
      → All (IsPrinted dumps loads) events
      → poll_file loads (write_all dumps events content) (size content) sent
        ≡ (size (write_all dumps events content), with_events events sent)
  poll_file-written events content sent h =
      let added = write_all dumps events "" in
      ap (λ t. poll_file loads t (size content) sent) (write_all-append dumps loads events content)
      ∙ poll_file-added loads content added sent
      ∙ ap (λ t. (size t, ship_lines loads (lines_of added) sent))
          (sym (write_all-append dumps loads events content))
      ∙ ap (λ ls. (size (write_all dumps events content), ship_lines loads ls sent))
          (lines_of-write_all dumps loads events h).0
      ∙ ap (λ s. (size (write_all dumps events content), s)) (ship_lines-written events sent h)

  -- Whatever sessions of events are written to a file, with a poll of the shipper after each, all
  -- events of the sessions are posted, each once and in the order in which they were written, their
  -- lines are added to the unified file, and the offset ends at the end of the file, if each printed
  -- event is an object on one line that the parser reads back.
  pub write_poll_exact :
      (content : String) (sessions : List (List J)) (sent : Sent J)
      → All (All (IsPrinted dumps loads)) sessions
      → write_poll content sessions (size content, sent)
        ≡ (size (write_all dumps (flatten sessions) content), with_events (flatten sessions) sent)
  write_poll_exact content [] sent h =
      unfold write_all in ap (λ s. (size content, s)) (sym (with_events-nil sent))
  write_poll_exact content (events ∷ rest) sent (here, more) =
      let after = write_all dumps events content in
      ap (write_poll after rest) (poll_file-written events content sent here)
      ∙ write_poll_exact after rest (with_events events sent) more
      ∙ ap (λ t. (size t, with_events (flatten rest) (with_events events sent)))
          (sym (write_all-concat events (flatten rest) content))
      ∙ ap (λ s. (size (write_all dumps (events ++ flatten rest) content), s))
          (sym (with_events-append events (flatten rest) sent))
