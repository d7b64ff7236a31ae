-- ===== src/Tools/Tests.antt =====
-- The ping of concrete hosts.
use honeypot_m1spro.Base.{
  split_on, String, ◌≡◌, refl, ◌⊎◌, true, false, none, some, [], ◌∷◌, ◌==◌, if◌then◌else◌, any,
  all_chars,
}
use honeypot_m1spro.Http.{ok, http_error}
use honeypot_m1spro.Validators.Chars.{chomp}
use honeypot_m1spro.Validators.{is_safe_hostname, label_re}
use honeypot_m1spro.Validators.Hosts.{is_host_char}
use honeypot_m1spro.Tools.{is_valid_target, ping_args, ping_result, ping, System}
use honeypot_m1spro.Tools.Command.{ping_args-safe}

abbrev system : System
system = record {
  is_ip_address = λ host. host == "127.0.0.1";
  which_ping = some "/bin/ping";
  is_windows = false;
  execute = λ args. some (if any (λ a. a == "srv") args then 0 else 2);
}

tools : Unit {0}
unfolding ping ping_args ping_result is_valid_target is_safe_hostname label_re chomp split_on
tools = tt

pings :
    (ping system "srv" ≡ ok (record { host = "srv"; returncode = 0; reachable = true }))
    × (ping system "a; id" ≡ http_error 400 "Hôte invalide." [])
    × (ping (record system { which_ping = none }) "srv" ≡ http_error 503 "ping indisponible." [])
    × (ping_args system "-f" ≡ some ("/bin/ping" ∷ "-c" ∷ "2" ∷ "-f" ∷ []))
unfolding tools
pings = (refl, refl, refl, refl)

ping_args-safe_example :
    ((system.is_ip_address "srv" ≡ true) ⊎ (all_chars is_host_char "srv" ≡ true))
    × (bin : String) × (system.which_ping ≡ some bin)
    × ("/bin/ping" ∷ "-c" ∷ "2" ∷ "srv" ∷ []
        ≡ bin ∷ (if system.is_windows then "-n" else "-c") ∷ "2" ∷ "srv" ∷ [])
unfolding tools
ping_args-safe_example =
    ping_args-safe system "srv" {args = "/bin/ping" ∷ "-c" ∷ "2" ∷ "srv" ∷ []} refl
