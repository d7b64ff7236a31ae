-- ===== src/Honeypots/Trace.antt =====
-- The protocol of the events of one session, as a state machine that the analyzer relies on.
use honeypot_m1spro.Base.{ℕ, ◌+◌, ◌≡◌, refl, arith, String, Option, List, [], ◌∷◌, ◌++◌}
use honeypot_m1spro.Honeypots.{Emission, connect, disconnect, auth_attempt, auth_success, command}

pub data Phase : Type 0 where
  start connected inside over : Phase

-- One event of a session.
pub data Step : Phase → Emission → Phase → Type 0 where
  connects : Step start connect connected
  tries : (u p : Option String) → Step connected (auth_attempt u p) connected
  enters : (u p : Option String) → Step connected (auth_success u p) inside
  runs : (c : String) → Step inside (command c) inside
  gives_up : Step connected disconnect over
  leaves : Step inside disconnect over

-- A sequence of events from one phase to another.
pub data Run : Phase → List Emission → Phase → Type 0 where
  stop : (a : Phase) → Run a [] a
  step :
      {a b c : Phase} {e : Emission} {es : List Emission}
      → Step a e b
      → Run b es c
      → Run a (e ∷ es) c

pub Run-append :
    {a b c : Phase} {es es' : List Emission} → Run a es b → Run b es' c → Run a (es ++ es') c
Run-append (stop a) r = r
Run-append (step s rest) r = step s (Run-append rest r)

-- The inputs that end up as `command` events.
abbrev pub commands_of : List Emission → List String
commands_of [] = []
commands_of (command c ∷ es) = c ∷ commands_of es
commands_of (_ ∷ es) = commands_of es

-- How many `disconnect` events there are.
abbrev pub weight : Emission → ℕ
weight disconnect = 1
weight _ = 0

abbrev pub disconnects : List Emission → ℕ
disconnects [] = 0
disconnects (e ∷ es) = weight e + disconnects es

pub disconnects-append :
    (es es' : List Emission) → disconnects (es ++ es') ≡ disconnects es + disconnects es'
disconnects-append [] es' = omega arith
disconnects-append (e ∷ es) es' = omega (arith, disconnects-append es es')

-- The disconnections that are still to come in a session.
abbrev pub to_come : Phase → ℕ
to_come over = 0
to_come _ = 1

Step-weight : {a b : Phase} {e : Emission} → Step a e b → weight e + to_come b ≡ to_come a
Step-weight connects = refl
Step-weight (tries u p) = refl
Step-weight (enters u p) = refl
Step-weight (runs c) = refl
Step-weight gives_up = refl
Step-weight leaves = refl

pub Run-disconnects :
    {a b : Phase} {es : List Emission} → Run a es b → disconnects es + to_come b ≡ to_come a
Run-disconnects (stop a) = omega arith
Run-disconnects (step s rest) = omega (arith, Step-weight s, Run-disconnects rest)
