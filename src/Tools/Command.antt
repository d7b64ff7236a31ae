-- ===== src/Tools/Command.antt =====
-- What reaches the command line of ping.
use honeypot_m1spro.Base.{
  ℕ, String, ◌≡◌, ◌⊎◌, inl, inr, true, false, Option, none, some, List, [], ◌∷◌, arith,
  if◌then◌else◌, Bool-cases, Option-cases, all_chars,
}
use honeypot_m1spro.Validators.Hosts.{is_host_char, is_safe_hostname-chars}
use honeypot_m1spro.Tools.{is_valid_target, ping_args, ping, System}

-- A process is started only for an address or for a text of ASCII letters, digits, dashes, dots and
-- line feeds, which the `$` of the source lets through at the end of a label; always with four
-- arguments, of which the request gives the last alone.
pub ping_args-safe :
    (system : System) (host : String) {args : List String}
    → ping_args system host ≡ some args
    → ((system.is_ip_address host ≡ true) ⊎ (all_chars is_host_char host ≡ true))
      × (bin : String) × (system.which_ping ≡ some bin)
      × (args ≡ bin ∷ (if system.is_windows then "-n" else "-c") ∷ "2" ∷ host ∷ [])
unfolding ping_args is_valid_target
ping_args-safe system host {args} e = elim (Bool-cases (is_valid_target system host)) [
  | inr invalid ↦ absurd (ground arith)
  | inl valid ↦ elim (Option-cases system.which_ping) [
    | inl missing ↦ absurd (ground arith)
    | inr (bin, found) ↦
        (target (Bool-cases (system.is_ip_address host)) valid, bin, found, ground arith)
  ]
]
  where
    target :
        ((system.is_ip_address host ≡ true) ⊎ (system.is_ip_address host ≡ false))
        → is_valid_target system host ≡ true
        → (system.is_ip_address host ≡ true) ⊎ (all_chars is_host_char host ≡ true)
    target (inl address) v = inl address
    target (inr name) v = inr ((is_safe_hostname-chars host (ground arith)).1)

-- Where no process is started, the answer is the same whatever processes would do.
ping-refused :
    (system : System) (execute : List String → Option ℕ) (host : String)
    → ping_args system host ≡ none
    → ping (record system { execute = execute }) host ≡ ping system host
unfolding ping ping_args is_valid_target
ping-refused system execute host refused = ground arith
