-- ===== src/Classifier/Accuracy/Bot.antt =====
-- analyzer/evaluate.py: the sessions of `_gen_bot`.
use honeypot_m1spro.Base.{
  ℕ, ◌+◌, ◌≤◌, String, ◌≡◌, refl, ap, ◌∙◌, ◌⊎◌, some, List, [], ◌∷◌, arith, length, All,
}
use honeypot_m1spro.Classifier.{
  insert_time, sort_times, intervals, last_time, span, sum, texts, is_connect_close, features,
  match_scanner, match_bruteforcer, match_bot, classify_session, bot,
}
use honeypot_m1spro.Classifier.Mean.{AscendingFrom}
use honeypot_m1spro.Classifier.Profiles.{classify_session_iff}
use honeypot_m1spro.Classifier.Generators.{plain_event, attempt, bot_loop, gen_bot}

insert_time-first : (t : ℕ) (us : List ℕ) → AscendingFrom t us → insert_time t us ≡ t ∷ us
unfolding insert_time
insert_time-first t [] h = refl
insert_time-first t (u ∷ us) (here, more) = ground arith

-- Times in order stay as they are.
pub sort_times_idle : (a : ℕ) (ts : List ℕ) → AscendingFrom a ts → sort_times ts ≡ ts
unfolding sort_times
sort_times_idle a [] h = refl
sort_times_idle a (t ∷ ts) (here, more) =
    ap (insert_time t) (sort_times_idle t ts more) ∙ insert_time-first t ts more

-- A session of `_gen_bot`, with one attempt or two.
one_try :
    (p : String) (gap gap' : ℕ)
    → gap ≤ 150000
    → gap' ≤ 150000
    → classify_session (gen_bot gap ((p, gap') ∷ [])) ≡ some bot
unfolding gen_bot bot_loop
one_try p gap gap' h k =
    let rest = attempt gap p ∷ plain_event (gap + gap') "disconnect" ∷ [] in
    (classify_session_iff (plain_event 0 "connect") rest).3.1 (
      unfold match_bot features texts sum span last_time intervals in
          rw
            (sort_times_idle 0 (0 ∷ gap ∷ (gap + gap') ∷ [])
              (omega arith, (omega arith, (omega arith, tt))))
            (ground arith),
      unfold match_scanner features texts is_connect_close in refl,
      unfold match_bruteforcer features texts in refl,
    )

two_tries :
    (p p' : String) (gap gap' gap'' : ℕ)
    → gap ≤ 150000
    → gap' ≤ 150000
    → gap'' ≤ 150000
    → classify_session (gen_bot gap ((p, gap') ∷ (p', gap'') ∷ [])) ≡ some bot
unfolding gen_bot bot_loop
two_tries p p' gap gap' gap'' h k l =
    let rest =
      attempt gap p
      ∷ attempt (gap + gap') p'
      ∷ plain_event (gap + gap' + gap'') "disconnect"
      ∷ [] in
    (classify_session_iff (plain_event 0 "connect") rest).3.1 (
      unfold match_bot features texts sum span last_time intervals in
          rw
            (sort_times_idle 0 (0 ∷ gap ∷ (gap + gap') ∷ (gap + gap' + gap'') ∷ [])
              (omega arith, (omega arith, (omega arith, (omega arith, tt)))))
            (ground arith),
      unfold match_scanner features texts is_connect_close in refl,
      unfold match_bruteforcer features texts in refl,
    )

pub gen_bot-label :
    (gap : ℕ) (tries : List (String × ℕ))
    → gap ≤ 150000
    → All (λ t. t.1 ≤ 150000) tries
    → (length tries ≡ 1) ⊎ (length tries ≡ 2)
    → classify_session (gen_bot gap tries) ≡ some bot
gen_bot-label gap [] h k n = absurd (ground arith)
gen_bot-label gap ((p, g) ∷ []) h (k, _) n = one_try p gap g h k
gen_bot-label gap ((p, g) ∷ (q, g') ∷ []) h (k, (l, _)) n = two_tries p q gap g g' h k l
gen_bot-label gap (_ ∷ _ ∷ _ ∷ rest) h k n = absurd (ground arith)
