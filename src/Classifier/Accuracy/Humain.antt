-- ===== src/Classifier/Accuracy/Humain.antt =====
-- analyzer/evaluate.py: the sessions of `_gen_humain`.
use honeypot_m1spro.Base.{
  ℕ, suc, ◌+◌, ◌*◌, ◌≤◌, String, ◌≡◌, refl, sym, ap, subst, ◌∙◌, ◌≢◌, true, false, some, List, [],
  ◌∷◌, map, arith, ◌==◌, length, any, select, All, ==-false, Distinct,
}
use honeypot_m1spro.Classifier.{
  insert_time, sort_times, last_time, span, unique, texts, is_type, features, match_humain,
  classify_session, SessionEvent, Features, humain,
}
use honeypot_m1spro.Classifier.Profiles.{classify_session_iff}
use honeypot_m1spro.Classifier.Mean.{AscendingFrom, length-map, features-mean}
use honeypot_m1spro.Classifier.Accuracy.{cmd_of, IsSample}
use honeypot_m1spro.Classifier.Accuracy.Bot.{sort_times_idle}
use honeypot_m1spro.Classifier.Generators.{human_cmds, plain_event, human_loop, gen_humain}

human_times : List (String × ℕ) → ℕ → List ℕ
human_times [] t = []
human_times ((cmd, gap) ∷ rest) t = t ∷ human_times rest (t + gap)

loop-times :
    (typed : List (String × ℕ)) (t : ℕ)
    → map (λ (e : SessionEvent). e.timestamp) (human_loop typed t) ≡ human_times typed t
unfolding human_loop human_times
loop-times [] t = refl
loop-times ((cmd, gap) ∷ rest) t = ap (λ ts. t ∷ ts) (loop-times rest (t + gap))

human_times-Ascending :
    (typed : List (String × ℕ)) (a t : ℕ) → a ≤ t → AscendingFrom a (human_times typed t)
unfolding human_times
human_times-Ascending [] a t h = tt
human_times-Ascending ((cmd, gap) ∷ rest) a t h =
    (h, human_times-Ascending rest t (t + gap) (omega arith))

-- The last command comes 1.2 seconds after the start for each command.
last_time-human_times :
    (typed : List (String × ℕ)) (a t : ℕ)
    → a + 1200000 ≤ t
    → All (λ c. (any (λ d. d == c.0) human_cmds ≡ true) × (1200000 ≤ c.1)) typed
    → a + 1200000 * length typed ≤ last_time a (human_times typed t)
unfolding human_times last_time
last_time-human_times [] a t h k = omega arith
last_time-human_times ((cmd, gap) ∷ rest) a t h ((_, here), more) =
    omega (arith, last_time-human_times rest t (t + gap) (omega arith) more)

loop-no :
    (kind : String) (typed : List (String × ℕ)) (t : ℕ)
    → ("command" == kind) ≡ false
    → select (is_type kind) (human_loop typed t) ≡ []
unfolding human_loop
loop-no kind [] t h = refl
loop-no kind ((cmd, gap) ∷ rest) t h = rw (h, select) (loop-no kind rest (t + gap) h)

loop-commands :
    (typed : List (String × ℕ)) (t : ℕ)
    → All (λ c. (any (λ d. d == c.0) human_cmds ≡ true) × (1200000 ≤ c.1)) typed
    → texts
        (map (λ (e : SessionEvent). e.command) (select (is_type "command") (human_loop typed t)))
      ≡ map cmd_of typed
unfolding human_loop texts
loop-commands [] t h = refl
loop-commands ((cmd, gap) ∷ rest) t ((there, _), more) =
    rw (==-false cmd "" (λ e. full (subst (λ c. any (λ d. d == c) human_cmds ≡ true) e there)))
      (ap (λ cs. cmd ∷ cs) (loop-commands rest (t + gap) more))
  where
    full : any (λ d. d == "") human_cmds ≡ true → ⊥
    full e = cc

any-apart :
    (cmd : String) (typed : List (String × ℕ))
    → All (λ c. cmd ≢ cmd_of c) typed
    → any (λ d. d == cmd) (map cmd_of typed) ≡ false
any-apart cmd [] h = refl
any-apart cmd ((d, gap) ∷ rest) (here, more) =
    rw (==-false d cmd (λ e. here (sym e))) (any-apart cmd rest more)

unique-sample :
    (typed : List (String × ℕ))
    → Distinct cmd_of typed
    → length (unique (map cmd_of typed)) ≡ length typed
unfolding unique
unique-sample [] h = refl
unique-sample ((cmd, gap) ∷ rest) (here, more) =
    rw (any-apart cmd rest here) (ap suc (unique-sample rest more))

length-human_loop : (typed : List (String × ℕ)) (t : ℕ) → length (human_loop typed t) ≡ length typed
unfolding human_loop
length-human_loop [] t = refl
length-human_loop ((cmd, gap) ∷ rest) t = ap suc (length-human_loop rest (t + gap))

-- The parts of the features that the profile reads.
humain_features :
    (gap : ℕ) (typed : List (String × ℕ))
    → IsSample typed
    → 1200000 ≤ gap
    → let f = features (gen_humain gap typed) in
      (f.n_commands ≡ length typed)
      × (f.distinct_commands ≡ length typed)
      × (f.n_events ≡ suc (length typed))
      × (1200000 * length typed ≤ f.duration)
unfolding features gen_humain
humain_features gap typed (distinct, known) h =
    let sorted : insert_time 0
          (sort_times (map (λ (e : SessionEvent). e.timestamp) (human_loop typed gap)))
        ≡ 0 ∷ human_times typed gap =
      ap (λ ts. insert_time 0 (sort_times ts)) (loop-times typed gap)
      ∙ unfold sort_times in
        sort_times_idle 0 (0 ∷ human_times typed gap)
          (omega arith, human_times-Ascending typed 0 gap (omega arith)) in
    (
      rw (loop-commands typed gap known) (length-map cmd_of typed),
      rw (loop-commands typed gap known) (unique-sample typed distinct),
      ap suc (length-human_loop typed gap),
      subst (λ ts. 1200000 * length typed ≤ span ts) (sym sorted)
          (unfold span in omega (arith, last_time-human_times typed 0 gap h known)),
    )

match_humain_of :
    (f : Features) (n : ℕ)
    → 4 ≤ n
    → f.n_commands ≡ n
    → f.distinct_commands ≡ n
    → f.n_intervals ≡ n
    → 1200000 * n ≤ f.interval_total
    → match_humain f ≡ true
unfolding match_humain
match_humain_of f n h a b c d = ground arith

-- A session of `_gen_humain`, for a sample of four commands or more.
pub gen_humain-label :
    (gap : ℕ) (typed : List (String × ℕ))
    → IsSample typed
    → 1200000 ≤ gap
    → 4 ≤ length typed
    → classify_session (gen_humain gap typed) ≡ some humain
gen_humain-label gap typed sample h n =
    let (commands, distinct, events, duration) = humain_features gap typed sample h in
    let (total, count) = features-mean (gen_humain gap typed) in
    unfold gen_humain in
    (classify_session_iff (plain_event 0 "auth_success") (human_loop typed gap)).2.1 (
      match_humain_of (features (plain_event 0 "auth_success" ∷ human_loop typed gap))
        (length typed) n commands distinct (omega (arith, count, events))
        (omega (arith, total, duration)))
