-- ===== src/Analyzer/Stats.antt =====
-- analyzer/db.py: the aggregates of the dashboard. The order that SQL leaves open is that of the first
-- rows of the groups.
use honeypot_m1spro.Base.{
  order_desc, ℕ, String, Bool, true, false, not, ◌&&◌, Option, none, some, List, [], ◌∷◌, map, ◌==◌,
  leb, if◌then◌else◌, is_some, length, select,
}
use honeypot_m1spro.Classifier.{unique, Label, scanner_legitime, bruteforcer, bot, humain}
use honeypot_m1spro.Exports.{Attacker}
use honeypot_m1spro.Analyzer.{Value, null, text, int, Row}
use honeypot_m1spro.Analyzer.Store.{first_rows}

module _ {A : Type 0} (same : A → A → Bool) where
  -- One row of each group.
  unfoldable pub firsts : List A → List A
  firsts [] = []
  firsts (x ∷ xs) = x ∷ select (λ y. not (same x y)) (firsts xs)

  -- `GROUP BY`: a row of each group, and the rows of the group.
  unfoldable pub group_by : List A → List (A × List A)
  group_by xs = map (λ x. (x, select (same x) xs)) (firsts xs)

abbrev pub same_option : Option String → Option String → Bool
same_option none none = true
same_option (some a) (some b) = a == b
same_option _ _ = false

-- Equality of the texts of a column.
abbrev pub same_value : Value → Value → Bool
same_value null null = true
same_value (text a) (text b) = a == b
same_value _ _ = false

-- A label as the column holds it.
abbrev pub name_of : Label → String
name_of scanner_legitime = "scanner_legitime"
name_of bruteforcer = "bruteforcer"
name_of bot = "bot"
name_of humain = "humain"

abbrev pub label_name : Option Label → Option String
label_name none = none
label_name (some l) = some (name_of l)

pub record Stats : Type 0 where
  pub total_events : ℕ
  pub unique_ips : ℕ
  pub by_service : List (String × ℕ)
  pub top_credentials : List ((Option String × Option String) × ℕ)
  pub by_classification : List (Option String × ℕ)

abbrev same_service : Row → Row → Bool
same_service a b = a.event.service == b.event.service

abbrev same_credentials : Row → Row → Bool
same_credentials a b =
    same_option a.event.username b.event.username && same_option a.event.password b.event.password

abbrev same_label : Row → Row → Bool
same_label a b = same_option (label_name a.classification) (label_name b.classification)

-- `stats`.
unfoldable pub stats : List Row → Stats
stats rows =
    let attempts = select (λ r. r.event.event_type == "auth_attempt") rows in
    record {
      total_events = length rows;
      unique_ips = length (unique (map (λ r. r.event.src_ip) rows));
      by_service = map (λ g. (g.0.event.service, length g.1)) (group_by same_service rows);
      top_credentials = first_rows 10 (
          order_desc (λ c. c.1)
            (map (λ g. ((g.0.event.username, g.0.event.password), length g.1))
              (group_by same_credentials attempts)));
      by_classification =
          map (λ g. (label_name g.0.classification, length g.1))
            (group_by same_label (select (λ r. is_some r.classification) rows));
    }

-- `MAX(abuse_score)`, which skips NULL.
abbrev pub int_of : Value → Option ℕ
int_of (int n) = some n
int_of _ = none

abbrev pub greater : Option ℕ → Option ℕ → Option ℕ
greater none b = b
greater (some m) none = some m
greater (some m) (some n) = if leb m n then some n else some m

abbrev pub max_score : List Row → Option ℕ
max_score [] = none
max_score (r ∷ rows) = greater (int_of r.abuse_score) (max_score rows)

-- `MAX(classification)`: the last name in alphabetical order.
abbrev pub rank : Label → ℕ
rank bot = 0
rank bruteforcer = 1
rank humain = 2
rank scanner_legitime = 3

abbrev pub later : Option Label → Option Label → Option Label
later none b = b
later (some a) none = some a
later (some a) (some b) = if leb (rank a) (rank b) then some b else some a

abbrev pub max_label : List Row → Option Label
max_label [] = none
max_label (r ∷ rows) = later r.classification (max_label rows)

-- A row of `attackers`.
pub record AttackerRow : Type 0 where
  pub src_ip : String
  pub country : Value
  pub abuse_score : Option ℕ
  pub events : ℕ
  pub classification : Option Label

abbrev pub same_attacker : Row → Row → Bool
same_attacker a b = a.event.src_ip == b.event.src_ip && same_value a.country b.country

abbrev pub aggregate : Row × List Row → AttackerRow
aggregate (r, rows) = record {
  src_ip = r.event.src_ip;
  country = r.country;
  abuse_score = max_score rows;
  events = length rows;
  classification = max_label rows;
}

-- `attackers`.
unfoldable pub attackers : List Row → List AttackerRow
attackers rows =
    first_rows 100 (order_desc (λ a. a.events) (map aggregate (group_by same_attacker rows)))

-- What the exports read of it.
abbrev pub attacker_of : AttackerRow → Attacker
attacker_of a = record {
  src_ip = a.src_ip;
  abuse_score = a.abuse_score;
  classification = label_name a.classification;
}
