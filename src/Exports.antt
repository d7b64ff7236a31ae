-- ===== src/Exports.antt =====
-- analyzer/exports.py: the block list, the Sigma rules and the STIX indicators, as the texts and objects
-- that are written. The rows of `db.attackers`, the drawn identifiers and the date are arguments.
pub mod Blocklist
pub mod Tests
use honeypot_m1spro.Base.{
  ℕ, zero, suc, code, String, Bool, false, ◌||◌, Option, none, some, List, [], ◌∷◌, ◌++◌, map, ◌==◌,
  leb, eqb, if◌then◌else◌, select, ◌<>◌, join,
}

-- A row of `db.attackers`.
pub record Attacker : Type 0 where
  pub src_ip : String
  pub abuse_score : Option ℕ
  pub classification : Option String

abbrev abuse_threshold : ℕ
abuse_threshold = 50

abbrev score_or_zero : Option ℕ → ℕ
score_or_zero none = 0
score_or_zero (some n) = n

abbrev is_hostile : Option String → Bool
is_hostile none = false
is_hostile (some c) = c == "bruteforcer" || c == "bot"

unfoldable pub is_critical : Attacker → Bool
is_critical a = leb abuse_threshold (score_or_zero a.abuse_score) || is_hostile a.classification

-- `_critical_attackers`.
unfoldable pub critical_attackers : List Attacker → List Attacker
unfolding is_critical
critical_attackers attackers = select is_critical attackers

abbrev pub drop_rule : String → String
drop_rule ip = "-A INPUT -s " <> ip <> " -j DROP"

-- The lines and the text of `generate_blocklist`.
unfoldable pub blocklist_lines : List Attacker → List String
unfolding critical_attackers
blocklist_lines attackers =
    "# Généré automatiquement - block_list.iptables"
    ∷ map (λ a. drop_rule a.src_ip) (critical_attackers attackers)

unfoldable pub generate_blocklist : List Attacker → String
unfolding blocklist_lines
generate_blocklist attackers = join "\n" (blocklist_lines attackers) <> "\n"

-- What `_to_yaml` prints: a scalar, a mapping or a list of scalars.
mutual
  pub data Yaml : Type 0 where
    scalar : String → Yaml
    mapping : Entries → Yaml
    sequence : List String → Yaml

  pub data Entries : Type 0 where
    no_entries : Entries
    entry : String → Yaml → Entries → Entries

-- `"  " * indent`.
abbrev pad : ℕ → String
pad zero = ""
pad (suc n) = "  " <> pad n

-- `emit`: the lines of a value; a mapping that is a value stands one level deeper.
abbrev mutual
  emit_yaml : ℕ → Yaml → List String
  emit_yaml indent (scalar s) = []
  emit_yaml indent (mapping entries) = emit_entries indent entries
  emit_yaml indent (sequence items) = map (λ item. pad indent <> "- " <> item) items

  emit_entries : ℕ → Entries → List String
  emit_entries indent no_entries = []
  emit_entries indent (entry k (scalar s) entries) =
      (pad indent <> k <> ": " <> s) ∷ emit_entries indent entries
  emit_entries indent (entry k (mapping es) entries) =
      (pad indent <> k <> ":") ∷ emit_entries (suc indent) es ++ emit_entries indent entries
  emit_entries indent (entry k (sequence items) entries) =
      (pad indent <> k <> ":") ∷ map (λ item. pad (suc indent) <> "- " <> item) items
      ++ emit_entries indent entries

-- `str(None)` for an absent label.
abbrev label_text : Option String → String
label_text none = "None"
label_text (some c) = c

unfoldable pub sigma_rule : String → Attacker → Entries
sigma_rule rule_id a =
    entry "title" (scalar ("Activité honeypot malveillante depuis " <> a.src_ip)) (
      entry "id" (scalar rule_id) (
        entry "status" (scalar "experimental") (
          entry "description"
            (scalar ("IP classifiée " <> label_text a.classification <> " sur honeypot M1SPRO."))
            (entry "logsource" (mapping (entry "category" (scalar "network_connection") no_entries))
              (entry "detection"
                (mapping (
                  entry "selection" (mapping (entry "src_ip" (scalar a.src_ip) no_entries))
                    (entry "condition" (scalar "selection") no_entries)))
                (entry "level" (scalar "high") (
                  entry "tags" (sequence ("attack.command_and_control" ∷ "attack.t1110" ∷ []))
                    no_entries)))))))

-- `_to_yaml`.
unfoldable pub to_yaml : Entries → String
to_yaml rule = join "\n" (emit_entries 0 rule) <> "\n"

-- `ip.replace('.', '_').replace(':', '_')`.
abbrev file_part : String → String
file_part String.[] = ""
file_part (String.◌∷◌ c s) =
    if eqb (code c) b'.' || eqb (code c) b':'
    then String.◌∷◌ "_" (file_part s)
    else String.◌∷◌ c (file_part s)

-- The files of `generate_sigma`: a name and a text for each critical attacker, numbered by the draws.
unfoldable pub sigma_files : (ℕ → String) → ℕ → List Attacker → List (String × String)
unfolding sigma_rule to_yaml
sigma_files rule_id n [] = []
sigma_files rule_id n (a ∷ attackers) =
    ("honeypot_" <> file_part a.src_ip <> ".yml", to_yaml (sigma_rule (rule_id n) a))
    ∷ sigma_files rule_id (suc n) attackers

unfoldable pub generate_sigma : (ℕ → String) → List Attacker → List (String × String)
unfolding critical_attackers
generate_sigma rule_id attackers = sigma_files rule_id 0 (critical_attackers attackers)

-- A STIX indicator, without its constant fields.
pub record Indicator : Type 0 where
  pub id : String
  pub created : String
  pub name : String
  pub pattern_text : String

indicators : (ℕ → String) → String → ℕ → List Attacker → List Indicator
indicators draw now n [] = []
indicators draw now n (a ∷ attackers) =
    record {
      id = "indicator--" <> draw n;
      created = now;
      name = "Malicious IP " <> a.src_ip;
      pattern_text = "[ipv4-addr:value = '" <> a.src_ip <> "']";
    }
    ∷ indicators draw now (suc n) attackers

generate_stix : (ℕ → String) → String → List Attacker → List Indicator
unfolding critical_attackers
generate_stix draw now attackers = indicators draw now 0 (critical_attackers attackers)
