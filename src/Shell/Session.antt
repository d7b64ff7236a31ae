-- ===== src/Shell/Session.antt =====
-- A session of the fake shell: every line is answered, and the working directory always exists.
use honeypot_m1spro.Base.{
  lookup, has_key, Char, code, String, ◌≡◌, refl, ◌≢◌, ◌⊎◌, inl, inr, true, false, Option, none,
  some, List, [], ◌∷◌, arith, ◌==◌, eq_iff, Bool-cases, cons_head,
}
use honeypot_m1spro.Shell.Paths.{is_space, lstrip, rstrip, strip, starts_word, words}
use honeypot_m1spro.Shell.Replies.{home}
use honeypot_m1spro.Shell.Files.{fake_files_content}
use honeypot_m1spro.Shell.{
  resolve, is_dir, cd, execute_rest, execute_system, execute, execute_words, run, FakeShell,
}

lstrip-cases :
    (s : String)
    → (lstrip s ≡ "")
      ⊎ ((c : Char) × (r : String) × (lstrip s ≡ String.◌∷◌ c r) × (is_space (code c) ≡ false))
unfolding lstrip
lstrip-cases String.[] = inl refl
lstrip-cases (String.◌∷◌ c s) = elim (Bool-cases (is_space (code c))) [
  | inl space ↦ rw space (lstrip-cases s)
  | inr other ↦ inr (c, s, rw other refl, other)
]

words-cons :
    (c : Char) (s : String)
    → is_space (code c) ≡ false
    → (w : String) × (ws : List String) × (words (String.◌∷◌ c s) ≡ w ∷ ws)
unfolding words
words-cons c s h = elim (Bool-cases (starts_word s)) [
  | inl more ↦ cons_head_lem (words s) (rw (h, more) refl)
  | inr alone ↦ (String.◌∷◌ c "", words s, rw (h, alone) refl)
]
  where
    cons_head_lem :
        (ps : List String) {ws : List String}
        → ws ≡ cons_head c ps
        → (w : String) × (rest : List String) × (ws ≡ w ∷ rest)
    cons_head_lem [] e = (String.◌∷◌ c "", [], e)
    cons_head_lem (p ∷ ps) e = (String.◌∷◌ c p, ps, e)

-- A line that is not blank has a first word.
words-strip :
    (line : String)
    → strip line ≢ ""
    → (w : String) × (ws : List String) × (words (strip line) ≡ w ∷ ws)
unfolding strip
words-strip line h = elim (lstrip-cases line) [
  | inl blank ↦ absurd (h (rw blank refl))
  | inr (c, r, e, solid) ↦
      let more : rstrip (lstrip line) ≡ String.◌∷◌ c (rstrip r) = rw (e, solid) (ground arith) in
      rw more (words-cons c (rstrip r) solid)
]

-- `run` answers every line: `parts[0]` never fails.
pub run-total :
    (sh : FakeShell) (line : String)
    → (out : String) × (sh' : FakeShell) × (run sh line ≡ some (out, sh'))
unfolding run execute_words
run-total sh line = elim (Bool-cases (strip line == "")) [
  | inl blank ↦ ("", sh, rw blank refl)
  | inr other ↦
      let (w, ws, e) = words-strip line (λ b. cc (other, (eq_iff (strip line) "").1 b)) in
      let (out, sh') = execute sh w ws in (out, sh', rw (other, e) refl)
]

-- The working directory after a command: only `cd` moves it, and only to a listed directory.
home-is_dir : is_dir home ≡ true
unfolding is_dir has_key lookup
home-is_dir = refl

cd-is_dir :
    (sh : FakeShell) (args : List String) → is_dir sh.cwd ≡ true → is_dir (cd sh args).1.cwd ≡ true
unfolding cd
cd-is_dir sh [] h = home-is_dir
cd-is_dir sh (a ∷ _) h = elim (Bool-cases (is_dir (resolve sh.cwd a))) [
  | inl found ↦ rw found found
  | inr missing ↦ elim (Bool-cases (has_key (resolve sh.cwd a) fake_files_content)) [
    | inl file ↦ rw (missing, file) h
    | inr other ↦ rw (missing, other) h
  ]
]

-- The state after a command is the one before it, unless the command is `cd`.
abbrev Moves : FakeShell → String → List String → FakeShell → Type 0
Moves sh cmd args sh' = ((cmd ≡ "cd") × (sh' ≡ (cd sh args).1)) ⊎ (sh' ≡ sh)

execute_rest-state :
    (sh : FakeShell) (cmd : String) (args : List String)
    → Moves sh cmd args (execute_rest sh cmd args).1
unfolding execute_rest
execute_rest-state sh cmd args = ground (arith, eq_iff cmd "cd")

execute_system-state :
    (sh : FakeShell) (cmd : String) (args : List String)
    → Moves sh cmd args (execute_system sh cmd args).1
unfolding execute_system
execute_system-state sh cmd args = ground (arith, execute_rest-state sh cmd args)

execute-state :
    (sh : FakeShell) (cmd : String) (args : List String) → Moves sh cmd args (execute sh cmd args).1
unfolding execute
execute-state sh cmd args = ground (arith, execute_system-state sh cmd args)

execute-is_dir :
    (sh : FakeShell) (cmd : String) (args : List String)
    → is_dir sh.cwd ≡ true
    → is_dir (execute sh cmd args).1.cwd ≡ true
execute-is_dir sh cmd args h = elim (execute-state sh cmd args) [
  | inl (_, moved) ↦ rw moved (cd-is_dir sh args h)
  | inr same ↦ rw same h
]

execute_words-is_dir :
    (sh : FakeShell) (ws : List String) {out : String} {sh' : FakeShell}
    → is_dir sh.cwd ≡ true
    → execute_words sh ws ≡ some (out, sh')
    → is_dir sh'.cwd ≡ true
unfolding execute_words
execute_words-is_dir sh [] h e = cc
execute_words-is_dir sh (w ∷ ws) {sh'} h e =
    let same : (execute sh w ws).1 ≡ sh' = ground arith in rw (← same) (execute-is_dir sh w ws h)

run-is_dir :
    (sh : FakeShell) (line : String) {out : String} {sh' : FakeShell}
    → is_dir sh.cwd ≡ true
    → run sh line ≡ some (out, sh')
    → is_dir sh'.cwd ≡ true
unfolding run
run-is_dir sh line {out} {sh'} h e = elim (Bool-cases (strip line == "")) [
  | inl blank ↦
      let left : ◌≡◌ {A = Option (String × FakeShell)} (some ("", sh)) (some (out, sh')) =
        rw blank at e in
      let same : sh ≡ sh' = cc in rw (← same) h
  | inr other ↦ execute_words-is_dir sh (words (strip line)) h (rw other at e)
]

-- The state after the lines of a session, `none` if one of them crashes.
pub after_lines : FakeShell → List String → Option FakeShell
after_lines sh [] = some sh
after_lines sh (line ∷ lines) = elim (run sh line) [
  | none ↦ none
  | some (_, sh') ↦ after_lines sh' lines
]

-- Whatever lines are sent to a shell that stands in a directory of the fake filesystem, none crashes
-- it, and it stands in such a directory at the end.
pub after_lines-is_dir :
    (sh : FakeShell) (lines : List String)
    → is_dir sh.cwd ≡ true
    → (sh' : FakeShell) × (after_lines sh lines ≡ some sh') × (is_dir sh'.cwd ≡ true)
unfolding after_lines
after_lines-is_dir sh [] h = (sh, refl, h)
after_lines-is_dir sh (line ∷ lines) h =
    let (out, sh', e) = run-total sh line in
    let (sh'', e', h') = after_lines-is_dir sh' lines (run-is_dir sh line h e) in
    (sh'', rw (e, after_lines) e', h')
