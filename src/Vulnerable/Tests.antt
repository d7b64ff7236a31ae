-- ===== src/Vulnerable/Tests.antt =====
-- The vulnerable application on its demonstration data.
use honeypot_m1spro.Base.{
  split_on, fetch_one, ℕ, zero, suc, String, ◌≡◌, refl, ap, Option, none, some, [], ◌∷◌, ◌==◌,
  length, ◌<>◌,
}
use honeypot_m1spro.Http.{ok}
use honeypot_m1spro.Vulnerable.{
  new_db, insert_row, insert_or_ignore, demo_password, alice, bob, seed_users, add_users, add_notes,
  add_secrets, seed_if_empty, VulnDb,
}
use honeypot_m1spro.Vulnerable.Token.{
  issue_token, payload_of, not_null, decode_unverified, require_user,
}
use honeypot_m1spro.Vulnerable.Routes.{
  login, users_me, get_note, delete_note, get_secret, delete_secret, account,
}
use honeypot_m1spro.Vulnerable.Ownership.{ownership_ignored, decode_unverified_unsigned}
use honeypot_m1spro.Vulnerable.Injection.{injection_takeover}
use honeypot_m1spro.Vulnerable.Sqlite.{
  small_sql, small_sql-IsSqlite, until_padding, small_codec, small_codec-IsCodec,
}

abbrev draw : ℕ → String
draw zero = "a"
draw (suc n) = "a" <> draw n

abbrev demo : VulnDb
demo = record {
  users = seed_users;
  notes = record { id = "n"; owner_id = bob; title = "Todo"; body = "TLS" } ∷ [];
  secrets = [];
}

seed_run :
    elim (seed_if_empty draw "now" new_db) as (λ _. ℕ) [ none ↦ 0 | some db ↦ length db.secrets ]
    ≡ 5
unfolding seed_if_empty add_users add_notes add_secrets insert_row insert_or_ignore
seed_run = refl

abbrev mine : Option String
mine = some "Bearer h.11111111-1111-4111-8111-111111111111.x"

abbrev theirs : Option String
theirs = some "bearer x.nobody.y"

ownership_ignored_example :
    (get_note small_codec mine "n" demo ≡ get_note small_codec theirs "n" demo)
    × (delete_note small_codec mine "n" demo ≡ delete_note small_codec theirs "n" demo)
    × (get_secret small_codec mine "n" demo ≡ get_secret small_codec theirs "n" demo)
    × (delete_secret small_codec mine "n" demo ≡ delete_secret small_codec theirs "n" demo)
unfolding require_user decode_unverified split_on until_padding
ownership_ignored_example =
    ownership_ignored small_codec mine theirs alice "nobody" refl refl "n" demo

decode_unverified_unsigned_run :
    decode_unverified small_codec (some ("Bearer " <> "none" <> "." <> "root" <> "." <> ""))
    ≡ not_null (payload_of small_codec (some "root"))
decode_unverified_unsigned_run = decode_unverified_unsigned small_codec "none" "root" "" refl refl

injection_takeover_example :
    (login small_codec small_sql ("alice" <> "'--") "x" demo
      ≡ ok (record {
        access_token = issue_token small_codec alice;
        refresh_token = issue_token small_codec alice;
      }))
    × (users_me small_codec (some ("Bearer " <> issue_token small_codec alice)) demo
        ≡ ok (account alice "alice" "alice@example.com" demo_password))
unfolding fetch_one
injection_takeover_example =
    injection_takeover small_codec small_sql small_codec-IsCodec small_sql-IsSqlite "alice" "x"
      (record {
        id = alice;
        username = "alice";
        email = "alice@example.com";
        password = demo_password;
      })
      demo refl refl (((λ e. apart e), tt), (tt, tt)) refl refl
  where
    apart : alice ≡ bob → ⊥
    apart e = let differ : (alice == bob) ≡ (bob == bob) = ap (λ s. s == bob) e in cc differ
