-- ===== src/Classifier/Accuracy.antt =====
-- analyzer/evaluate.py: the evaluation of the classifier on what the generators draw.
pub mod Bruteforcer
pub mod Bot
pub mod Humain
pub mod Overall
use honeypot_m1spro.Base.{
  ℕ, ◌≤◌, String, ◌≡◌, ◌⊎◌, Bool, true, List, ◌==◌, length, any, All, Distinct,
}
use honeypot_m1spro.Classifier.{SessionEvent, Label, scanner_legitime, bruteforcer, bot, humain}
use honeypot_m1spro.Classifier.Generators.{
  human_cmds, gen_bruteforcer, gen_bot, gen_scanner, gen_humain,
}

-- A sample of `_HUMAN_CMDS` without repetition, each command with a gap of 1.2 seconds at least.
abbrev pub cmd_of : String × ℕ → String
cmd_of c = c.0

abbrev pub IsSample : List (String × ℕ) → Type 0
IsSample typed =
    Distinct cmd_of typed
    × All (λ c. (any (λ d. d == c.0) human_cmds ≡ true) × (1200000 ≤ c.1)) typed

-- `_GENERATORS`: the labelled sessions that some draws in the ranges of the generators make.
pub data IsGenerated : Label → List SessionEvent → Type 0 where
  bruteforcer_drawn :
      (n : ℕ) (number gap : ℕ → ℕ)
      → 25 ≤ n
      → n ≤ 70
      → IsGenerated bruteforcer (gen_bruteforcer n number gap)
  bot_drawn :
      (gap : ℕ) (tries : List (String × ℕ))
      → gap ≤ 150000
      → All (λ t. t.1 ≤ 150000) tries
      → (length tries ≡ 1) ⊎ (length tries ≡ 2)
      → IsGenerated bot (gen_bot gap tries)
  scanner_drawn :
      (tries : Bool) (gap gap' : ℕ) → IsGenerated scanner_legitime (gen_scanner tries gap gap')
  humain_drawn :
      (gap : ℕ) (typed : List (String × ℕ))
      → IsSample typed
      → 1200000 ≤ gap
      → 4 ≤ length typed
      → length typed ≤ 9
      → IsGenerated humain (gen_humain gap typed)

-- What `build_labeled_dataset` draws, in any order.
abbrev pub IsDataset : List (Label × List SessionEvent) → Type 0
IsDataset dataset = All (λ d. IsGenerated d.0 d.1) dataset
