-- ===== src/Tools.antt =====
-- secure_app/routers/tools.py: the ping of an authenticated user. The parser of addresses, the search of
-- the binary and the process are parameters.
pub mod Command
pub mod Tests
use honeypot_m1spro.Base.{
  ℕ, String, Bool, true, not, Option, none, some, List, [], ◌∷◌, eqb, if◌then◌else◌,
}
use honeypot_m1spro.Http.{Response, ok, http_error}
use honeypot_m1spro.Validators.{is_safe_hostname}

-- What the host system does. `execute` runs a list of arguments, without a shell, for at most five
-- seconds: its return code, or `none` for a timeout.
pub record System : Type 0 where
  pub is_ip_address : String → Bool
  pub which_ping : Option String
  pub is_windows : Bool
  pub execute : List String → Option ℕ

pub record PingOut : Type 0 where
  pub host : String
  pub returncode : ℕ
  pub reachable : Bool

unfoldable pub is_valid_target : System → String → Bool
is_valid_target system host = if system.is_ip_address host then true else is_safe_hostname host

-- The arguments of the process, if one is started.
unfoldable pub ping_args : System → String → Option (List String)
ping_args system host = if not (is_valid_target system host) then none else elim system.which_ping [
  | none ↦ none
  | some ping_bin ↦ some (ping_bin ∷ (if system.is_windows then "-n" else "-c") ∷ "2" ∷ host ∷ [])
]

unfoldable pub ping_result : String → Option ℕ → Response PingOut
ping_result host none = http_error 504 "Ping timeout." []
ping_result host (some code_of_return) =
    ok (record { host = host; returncode = code_of_return; reachable = eqb code_of_return 0 })

unfoldable pub ping : System → String → Response PingOut
unfolding ping_result
ping system host =
    if not (is_valid_target system host)
    then http_error 400 "Hôte invalide." []
    else elim (ping_args system host) [
      | none ↦ http_error 503 "ping indisponible." []
      | some args ↦ ping_result host (system.execute args)
    ]
