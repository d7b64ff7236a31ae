-- ===== src/Exports/Tests.antt =====
-- The exports of two attackers.
use honeypot_m1spro.Base.{◌≡◌, refl, ◌&&◌, none, some, List, [], ◌∷◌, ◌==◌, any}
use honeypot_m1spro.Exports.{
  is_critical, critical_attackers, blocklist_lines, generate_blocklist, sigma_rule, to_yaml,
  sigma_files, generate_sigma, Attacker,
}
use honeypot_m1spro.Exports.Blocklist.{is_dangerous, blocklist_lines-exact}

abbrev attackers : List Attacker
attackers =
    record { src_ip = "203.0.113.10"; abuse_score = none; classification = some "bot" }
    ∷ record { src_ip = "198.51.100.7"; abuse_score = some 49; classification = some "humain" }
    ∷ []

exports : Unit {0}
unfolding generate_blocklist generate_sigma critical_attackers is_critical
exports = tt

texts_written :
    (generate_blocklist attackers
      ≡ "# Généré automatiquement - block_list.iptables\n-A INPUT -s 203.0.113.10 -j DROP\n")
    × (generate_sigma (λ n. "u") attackers
        ≡ (
          "honeypot_203_0_113_10.yml",
          "title: Activité honeypot malveillante depuis 203.0.113.10\nid: u\nstatus: experimental\ndescription: IP classifiée bot sur honeypot M1SPRO.\nlogsource:\n  category: network_connection\ndetection:\n  selection:\n    src_ip: 203.0.113.10\n  condition: selection\nlevel: high\ntags:\n  - attack.command_and_control\n  - attack.t1110\n",
        )
          ∷ [])
unfolding exports sigma_files sigma_rule to_yaml
texts_written = (refl, refl)

blocklist_lines-exact_example :
    any (λ l. l == "-A INPUT -s 198.51.100.7 -j DROP") (blocklist_lines attackers)
    ≡ any (λ a. a.src_ip == "198.51.100.7" && is_dangerous a) attackers
blocklist_lines-exact_example = blocklist_lines-exact "198.51.100.7" attackers
