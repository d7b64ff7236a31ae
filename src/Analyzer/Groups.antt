-- ===== src/Analyzer/Groups.antt =====
-- analyzer/db.py and analyzer/exports.py: which groups of events the exports call critical.
use honeypot_m1spro.Base.{
  ℕ, String, ◌≡◌, refl, ap, ◌∙◌, Bool, true, false, not, ◌&&◌, ◌||◌, Option, none, some, List, [],
  ◌∷◌, arith, ◌==◌, leb, any,
}
use honeypot_m1spro.Classifier.{Label, scanner_legitime, bruteforcer, bot, humain}
use honeypot_m1spro.Exports.{is_critical}
use honeypot_m1spro.Analyzer.{Row}
use honeypot_m1spro.Analyzer.Stats.{
  name_of, label_name, int_of, greater, max_score, later, max_label, aggregate, attacker_of,
}

-- The labels that the exports act on, and the two that come after them in alphabetical order.
abbrev is_hostile_label : Option Label → Bool
is_hostile_label (some bot) = true
is_hostile_label (some bruteforcer) = true
is_hostile_label _ = false

abbrev is_calm_label : Option Label → Bool
is_calm_label (some humain) = true
is_calm_label (some scanner_legitime) = true
is_calm_label _ = false

abbrev pub hostile : Row → Bool
hostile r = is_hostile_label r.classification

abbrev pub calm : Row → Bool
calm r = is_calm_label r.classification

abbrev reaches : Option ℕ → Bool
reaches none = false
reaches (some n) = leb 50 n

abbrev pub scored : Row → Bool
scored r = reaches (int_of r.abuse_score)

is_calm_label-later :
    (a b : Option Label) → is_calm_label (later a b) ≡ (is_calm_label a || is_calm_label b)
is_calm_label-later none b = refl
is_calm_label-later (some a) none = ground arith
is_calm_label-later (some a) (some b) = ground arith

is_hostile_label-later :
    (a b : Option Label)
    → is_hostile_label (later a b)
      ≡ ((is_hostile_label a || is_hostile_label b) && not (is_calm_label a || is_calm_label b))
is_hostile_label-later none b = ground arith
is_hostile_label-later (some a) none = ground arith
is_hostile_label-later (some a) (some b) = ground arith

is_calm_label-max_label : (rows : List Row) → is_calm_label (max_label rows) ≡ any calm rows
is_calm_label-max_label [] = refl
is_calm_label-max_label (r ∷ rows) =
    is_calm_label-later r.classification (max_label rows)
    ∙ ap (λ b. is_calm_label r.classification || b) (is_calm_label-max_label rows)

is_hostile_label-max_label :
    (rows : List Row)
    → is_hostile_label (max_label rows) ≡ (any hostile rows && not (any calm rows))
is_hostile_label-max_label [] = refl
is_hostile_label-max_label (r ∷ rows) =
    is_hostile_label-later r.classification (max_label rows)
    ∙ absorb (is_hostile_label r.classification) (is_calm_label r.classification) _ _
        (any hostile rows) (any calm rows) (is_hostile_label-max_label rows)
        (is_calm_label-max_label rows)
  where
    absorb :
        (h c m n h' c' : Bool)
        → m ≡ (h' && not c')
        → n ≡ c'
        → ((h || m) && not (c || n)) ≡ ((h || h') && not (c || c'))
    absorb h c m n h' c' e f = ground arith

reaches-greater : (a b : Option ℕ) → reaches (greater a b) ≡ (reaches a || reaches b)
reaches-greater none b = refl
reaches-greater (some m) none = ground arith
reaches-greater (some m) (some n) = ground arith

reaches-max_score : (rows : List Row) → reaches (max_score rows) ≡ any scored rows
reaches-max_score [] = refl
reaches-max_score (r ∷ rows) =
    reaches-greater (int_of r.abuse_score) (max_score rows)
    ∙ ap (λ b. scored r || b) (reaches-max_score rows)

hostile_name :
    (l : Label) → (name_of l == "bruteforcer" || name_of l == "bot") ≡ is_hostile_label (some l)
hostile_name scanner_legitime = refl
hostile_name bruteforcer = refl
hostile_name bot = refl
hostile_name humain = refl

is_critical-parts :
    (ip : String) (score : Option ℕ) (c : Option Label)
    → is_critical (record { src_ip = ip; abuse_score = score; classification = label_name c })
      ≡ (reaches score || is_hostile_label c)
unfolding is_critical
is_critical-parts ip none none = refl
is_critical-parts ip (some n) none = ground arith
is_critical-parts ip none (some l) = hostile_name l
is_critical-parts ip (some n) (some l) = ap (λ b. leb 50 n || b) (hostile_name l)

-- The row that `attackers` makes of a group of events passes the test of the exports exactly if one of
-- the events has a score of at least 50, or one is labelled a bot or a bruteforcer and none a human or
-- a scanner, which `MAX` puts before them. Of the rows, only the 100 largest groups reach the exports.
pub critical_group_iff :
    (r : Row) (rows : List Row)
    → is_critical (attacker_of (aggregate (r, rows)))
      ≡ (any scored rows || (any hostile rows && not (any calm rows)))
critical_group_iff r rows =
    is_critical-parts r.event.src_ip (max_score rows) (max_label rows)
    ∙ ap (λ b. b || is_hostile_label (max_label rows)) (reaches-max_score rows)
    ∙ ap (λ b. any scored rows || b) (is_hostile_label-max_label rows)
