-- ===== src/Pipeline/Capture.antt =====
-- attacks/assert_logs.py with honeypots/common/events.py: the check of a file that `EventWriter` wrote.
use honeypot_m1spro.Base.{
  ℕ, suc, ◌+◌, ◌≤◌, String, ◌≡◌, refl, sym, subst, ◌∙◌, ◌↔◌, inl, inr, Bool, true, Option, some,
  List, [], ◌∷◌, map, arith, if◌then◌else◌, Bool-cases, length, all, All, ◌<>◌,
}
use honeypot_m1spro.Pipeline.{write_all, count_line, count_lines, exit_code, Counts}
use honeypot_m1spro.Pipeline.Written.{IsPrinted, strip-written, solid-written, lines_of-write_all}

module _ {J : Type 0} (dumps : J → String) (loads : String → Option J) (valid : J → Bool) where
  -- How many events do not conform.
  abbrev refused : List J → ℕ
  refused [] = 0
  refused (e ∷ events) = let rest = refused events in if valid e then rest else suc rest

  refused-zero_iff : (events : List J) → (refused events ≡ 0) ↔ (all valid events ≡ true)
  refused-zero_iff [] = (λ z. refl, λ v. refl)
  refused-zero_iff (e ∷ events) = elim (Bool-cases (valid e)) [
    | inl good ↦ rw good (refused-zero_iff events)
    | inr bad ↦ rw bad (λ z. absurd (omega arith), λ v. absurd (ground arith))
  ]

  -- The counts after one more event.
  abbrev with_event : J → Counts → Counts
  with_event e counts = record {
    total = suc counts.total;
    invalid = if valid e then counts.invalid else suc counts.invalid;
  }

  one_more :
      (e : J) (m n : ℕ) → (if valid e then m else suc m) + n ≡ m + (if valid e then n else suc n)
  one_more e m n = elim (Bool-cases (valid e)) [
    | inl good ↦ rw good refl
    | inr bad ↦ rw bad (omega arith)
  ]

  count_line-written :
      (e : J) (counts : Counts)
      → IsPrinted dumps loads e
      → count_line loads valid (dumps e <> "\n") counts ≡ with_event e counts
  unfolding count_line
  count_line-written e counts printed =
      rw (strip-written dumps loads e printed, solid-written dumps loads e printed, printed.3) refl

  count_lines-written :
      (events : List J) (counts : Counts)
      → All (IsPrinted dumps loads) events
      → ((count_lines loads valid (map (λ e. dumps e <> "\n") events) counts).total
          ≡ counts.total + length events)
        × ((count_lines loads valid (map (λ e. dumps e <> "\n") events) counts).invalid
            ≡ counts.invalid + refused events)
  unfolding count_lines
  count_lines-written [] counts h = (omega arith, omega arith)
  count_lines-written (e ∷ events) counts (here, more) =
      let (total, invalid) = count_lines-written events (with_event e counts) more in
      subst
        (λ c.
          ((count_lines loads valid (map (λ e. dumps e <> "\n") events) c).total
            ≡ counts.total + length (e ∷ events))
          × ((count_lines loads valid (map (λ e. dumps e <> "\n") events) c).invalid
              ≡ counts.invalid + refused (e ∷ events)))
        (sym (count_line-written e counts here))
        (omega (arith, total), invalid ∙ one_more e counts.invalid (refused events))

  -- On a file that the writer of a honeypot wrote, the check of a capture ends with 0 exactly if at
  -- least the wanted number of events was captured and all of them conform to the schema, if each
  -- printed event is an object on one line that the parser reads back.
  pub exit_code-written_iff :
      (min_events : ℕ) (events : List J)
      → All (IsPrinted dumps loads) events
      → (exit_code loads valid min_events (some (write_all dumps events "")) ≡ 0)
        ↔ ((min_events ≤ length events) × (all valid events ≡ true))
  unfolding exit_code
  exit_code-written_iff min_events events h =
      let zeros : Counts = record { total = 0; invalid = 0 } in
      let (total, invalid) = count_lines-written events zeros h in
      let (none_refused, refused_none) = refused-zero_iff events in
      rw (lines_of-write_all dumps loads events h).0 (
        rw (total, invalid)
          (
            λ done. (ground arith, none_refused (ground arith)),
            λ (enough, good). let clean = refused_none good in ground arith,
          ))
