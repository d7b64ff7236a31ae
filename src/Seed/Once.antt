-- ===== src/Seed/Once.antt =====
-- The seed is applied once, keeps the constraints of the schema, and touches no account that exists.
use honeypot_m1spro.Base.{
  ℕ, suc, ◌≤◌, String, ◌≡◌, refl, ap, inl, inr, true, false, not, ◌||◌, none, List, [], ◌∷◌, arith,
  ◌==◌, ltb, Bool-cases, Option-cases, length, any, length-append,
}
use honeypot_m1spro.Database.{
  user_conflict, has_user, create_user, count_users, create_user_with_id, create_note,
  create_secret, User, Database,
}
use honeypot_m1spro.Database.Constraints.{create_user-IsConsistent, IsConsistent}
use honeypot_m1spro.Database.Constraints.Resources.{
  create_note-IsConsistent, create_secret-IsConsistent,
}
use honeypot_m1spro.Security.{Services}
use honeypot_m1spro.Security.Cipher.{encrypt}
use honeypot_m1spro.Seed.{
  demo_password, alice_id, bob_id, demo_users, demo_secrets, demo_notes, seed_users, seed_notes,
  seed_secrets, seed_all, seed_if_empty, SeedDraws,
}

create_user_with_id-IsConsistent :
    (db : Database) (id username email hash : String)
    → IsConsistent db
    → IsConsistent (create_user_with_id db id username email hash)
unfolding create_user_with_id
create_user_with_id-IsConsistent db id username email hash k =
    elim (Option-cases (create_user db id username email hash)) [
      | inl clash ↦ rw (clash, create_user_with_id) k
      | inr (db', made) ↦
          rw (made, create_user_with_id) (create_user-IsConsistent db id username email hash k made)
    ]

seed_users-IsConsistent :
    (hash : String) (users : List (String × String × String)) (db : Database)
    → IsConsistent db
    → IsConsistent (seed_users hash users db)
unfolding seed_users
seed_users-IsConsistent hash [] db k = k
seed_users-IsConsistent hash ((id, username, email) ∷ users) db k =
    seed_users-IsConsistent hash users (create_user_with_id db id username email hash)
      (create_user_with_id-IsConsistent db id username email hash k)

seed_notes-IsConsistent :
    (draws : SeedDraws) (n : ℕ) (notes : List (String × String × String)) (db : Database)
    → IsConsistent db
    → IsConsistent (seed_notes draws n notes db).1
unfolding seed_notes
seed_notes-IsConsistent draws n [] db k = k
seed_notes-IsConsistent draws n ((owner, title, body) ∷ notes) db k =
    elim (Option-cases (create_note db (draws.note_id n) owner title body draws.now)) [
      | inl clash ↦ rw (clash, seed_notes) k
      | inr ((note, db'), made) ↦
          rw (made, seed_notes)
            (seed_notes-IsConsistent draws (suc n) notes db'
              (create_note-IsConsistent db (draws.note_id n) owner title body draws.now k made))
    ]

module _ (s : Services) (draws : SeedDraws) where
  seed_secrets-IsConsistent :
      (n : ℕ) (secrets : List (String × String × String)) (db : Database)
      → IsConsistent db
      → IsConsistent (seed_secrets s draws n secrets db)
  unfolding seed_secrets
  seed_secrets-IsConsistent n [] db k = k
  seed_secrets-IsConsistent n ((owner, label, value) ∷ secrets) db k =
      elim (Option-cases (
        create_secret db (draws.secret_id n) owner label (encrypt s (draws.nonce n) value)
          draws.now)) [
            | inl clash ↦ rw (clash, seed_secrets) k
            | inr ((secret, db'), made) ↦
                rw (made, seed_secrets)
                  (seed_secrets-IsConsistent (suc n) secrets db' (
                    create_secret-IsConsistent db (draws.secret_id n) owner label
                      (encrypt s (draws.nonce n) value) draws.now k made))
          ]

  seed_all-IsConsistent : (db : Database) → IsConsistent db → IsConsistent (seed_all s draws db)
  unfolding seed_all
  seed_all-IsConsistent db k =
      let start : Database = seed_users (s.hash draws.salt demo_password) demo_users db in
      let noted =
        seed_notes-IsConsistent draws 0 demo_notes start
          (seed_users-IsConsistent (s.hash draws.salt demo_password) demo_users db k) in
      elim (Bool-cases (seed_notes draws 0 demo_notes start).0) [
        | inl fine ↦ rw (fine, seed_all) (seed_secrets-IsConsistent 0 demo_secrets _ noted)
        | inr raised ↦ rw (raised, seed_all) noted
      ]

-- An account is there after its insertion, new or old.
create_user_with_id-count :
    (db : Database) (id username email hash : String)
    → (1 ≤ count_users (create_user_with_id db id username email hash))
      × (count_users db ≤ count_users (create_user_with_id db id username email hash))
unfolding create_user_with_id create_user count_users
create_user_with_id-count db id username email hash = by_rows db.users
  where
    by_rows :
        (us : List User)
        → (1 ≤ count_users (create_user_with_id (record db { users = us }) id username email hash))
          × (length us
              ≤ count_users (create_user_with_id (record db { users = us }) id username email hash))
    by_rows [] = (omega arith, omega arith)
    by_rows (u ∷ us) = elim (Bool-cases (any (user_conflict id username email) (u ∷ us))) [
      | inl clash ↦ rw (clash, create_user_with_id) (omega arith, omega arith)
      | inr free ↦
          rw (free, create_user_with_id)
            (
              omega arith,
              omega (
                arith,
                length-append us (
                    record {
                      id = id;
                      username = username;
                      email = email;
                      password_hash = hash;
                      mfa_secret = none;
                      mfa_enabled = false;
                    }
                    ∷ []),
              ),
            )
    ]

seed_notes-users :
    (draws : SeedDraws) (n : ℕ) (notes : List (String × String × String)) (db : Database)
    → (seed_notes draws n notes db).1.users ≡ db.users
unfolding seed_notes create_note
seed_notes-users draws n [] db = refl
seed_notes-users draws n ((owner, title, body) ∷ notes) db =
    elim (Bool-cases (any (λ r. r.id == draws.note_id n) db.notes || not (has_user db owner))) [
      | inl clash ↦ rw (clash, seed_notes) refl
      | inr free ↦ rw (free, seed_notes) (seed_notes-users draws (suc n) notes _)
    ]

module _ (s : Services) (draws : SeedDraws) where
  seed_secrets-users :
      (n : ℕ) (secrets : List (String × String × String)) (db : Database)
      → (seed_secrets s draws n secrets db).users ≡ db.users
  unfolding seed_secrets create_secret
  seed_secrets-users n [] db = refl
  seed_secrets-users n ((owner, label, value) ∷ secrets) db =
      elim (Bool-cases
        (any (λ r. r.id == draws.secret_id n) db.secrets || not (has_user db owner))) [
          | inl clash ↦ rw (clash, seed_secrets) refl
          | inr free ↦ rw (free, seed_secrets) (seed_secrets-users (suc n) secrets _)
        ]

  seed_all-count : (db : Database) → 1 ≤ count_users (seed_all s draws db)
  unfolding seed_all count_users seed_users
  seed_all-count db =
      let hash : String = s.hash draws.salt demo_password in
      let start : Database = seed_users hash demo_users db in
      let (_, grown) =
        create_user_with_id-count (create_user_with_id db alice_id "alice" "alice@example.com" hash)
          bob_id "bob" "bob@example.com" hash in
      let (first, _) = create_user_with_id-count db alice_id "alice" "alice@example.com" hash in
      let here : 1 ≤ length start.users = omega (arith, grown, first) in
      let noted : length (seed_notes draws 0 demo_notes start).1.users ≡ length start.users =
        ap length (seed_notes-users draws 0 demo_notes start) in
      elim (Bool-cases (seed_notes draws 0 demo_notes start).0) [
        | inl fine ↦
            rw (fine, seed_all)
              (omega (
                arith,
                here,
                noted,
                ap length
                    (seed_secrets-users 0 demo_secrets (seed_notes draws 0 demo_notes start).1),
              ))
        | inr raised ↦ rw (raised, seed_all) (omega (arith, here, noted))
      ]

  -- A second start changes nothing after the first, even if an insertion of the first one raised, and
  -- the seed keeps the constraints of the schema.
  pub seed_if_empty-once :
      (again : SeedDraws) (db : Database)
      → IsConsistent db
      → (seed_if_empty s again (seed_if_empty s draws db) ≡ seed_if_empty s draws db)
        × IsConsistent (seed_if_empty s draws db)
  unfolding seed_if_empty
  seed_if_empty-once again db k = elim (Bool-cases (ltb 0 (count_users db))) [
    | inl some_users ↦
        (rw (some_users, seed_if_empty) (rw some_users refl), rw (some_users, seed_if_empty) k)
    | inr empty ↦
        let filled : ltb 0 (count_users (seed_all s draws db)) ≡ true =
          ground (arith, seed_all-count db) in
        (
          rw (empty, seed_if_empty) (rw filled refl),
          rw (empty, seed_if_empty) (seed_all-IsConsistent s draws db k),
        )
  ]
