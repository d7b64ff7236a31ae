-- ===== src/Exports/Blocklist.antt =====
-- Whom the exports name.
use text.Mathlib.TextLemmas.{cons-append, append_cancel_left, append_cancel_right}
use honeypot_m1spro.Base.{
  ℕ, Bool, ◌||◌, Option, none, some, leb, String, ◌≡◌, refl, sym, ap, ◌∙◌, inl, inr, true, false,
  ◌&&◌, List, [], ◌∷◌, map, arith, ◌==◌, eq_iff, eq_refl, Bool-cases, any, select, ◌<>◌,
  starts_with, ==-false,
}
use honeypot_m1spro.Exports.{is_critical, critical_attackers, drop_rule, blocklist_lines, Attacker}

drop_rule-injective : (a b : String) → drop_rule a ≡ drop_rule b → a ≡ b
drop_rule-injective a b e =
    append_cancel_right a b " -j DROP"
      (append_cancel_left "-A INPUT -s " (a <> " -j DROP") (b <> " -j DROP") e)

drop_rule-== : (a b : String) → (drop_rule a == drop_rule b) ≡ (a == b)
drop_rule-== a b = elim (Bool-cases (a == b)) [
  | inl same ↦ rw (same, (eq_iff a b).0 same) (eq_refl (drop_rule b))
  | inr other ↦
      ==-false (drop_rule a) (drop_rule b)
        (λ e. true_ne_false (sym ((eq_iff a b).1 (drop_rule-injective a b e)) ∙ other))
      ∙ sym other
]
  where
    true_ne_false : true ≡ false → ⊥
    true_ne_false e = cc

header_apart :
    (ip : String) → ("# Généré automatiquement - block_list.iptables" == drop_rule ip) ≡ false
header_apart ip = ==-false "# Généré automatiquement - block_list.iptables" (drop_rule ip) λ e.
    let first : starts_with "# Généré automatiquement - block_list.iptables" "#"
        ≡ starts_with (String.◌∷◌ "-" ("A INPUT -s " <> ip <> " -j DROP")) "#" =
      ap (λ t. starts_with t "#") (e ∙ cons-append "-" "A INPUT -s " (ip <> " -j DROP")) in
    cc first

-- A score of at least 50, or a label of the two dangerous ones.
abbrev reaches_50 : Option ℕ → Bool
reaches_50 none = false
reaches_50 (some n) = leb 50 n

abbrev named : String → Option String → Bool
named name none = false
named name (some c) = c == name

abbrev pub is_dangerous : Attacker → Bool
is_dangerous a =
    reaches_50 a.abuse_score || named "bot" a.classification || named "bruteforcer" a.classification

is_critical-is_dangerous : (a : Attacker) → is_critical a ≡ is_dangerous a
unfolding is_critical
is_critical-is_dangerous a = same a.abuse_score a.classification
  where
    same :
        (score : Option ℕ) (label : Option String)
        → is_critical (record { src_ip = a.src_ip; abuse_score = score; classification = label })
          ≡ (reaches_50 score || named "bot" label || named "bruteforcer" label)
    same none none = refl
    same none (some c) = ground arith
    same (some n) none = ground arith
    same (some n) (some c) = ground arith

rules-any :
    (ip : String) (attackers : List Attacker)
    → any (λ l. l == drop_rule ip) (map (λ a. drop_rule a.src_ip) (select is_critical attackers))
      ≡ any (λ a. a.src_ip == ip && is_dangerous a) attackers
rules-any ip [] = refl
rules-any ip (a ∷ attackers) =
    ground (arith, is_critical-is_dangerous a, drop_rule-== a.src_ip ip, rules-any ip attackers)

-- The block list has the rule that drops an address exactly if one of the attackers with that address
-- has a score of at least 50, or is labelled a bot or a bruteforcer.
pub blocklist_lines-exact :
    (ip : String) (attackers : List Attacker)
    → any (λ l. l == "-A INPUT -s " <> ip <> " -j DROP") (blocklist_lines attackers)
      ≡ any (λ a. a.src_ip == ip && is_dangerous a) attackers
unfolding blocklist_lines critical_attackers
blocklist_lines-exact ip attackers = rw (header_apart ip) (rules-any ip attackers)
