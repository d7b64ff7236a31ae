-- ===== src/Seed/Tests.antt =====
-- The seed of an empty database.
use honeypot_m1spro.Base.{
  insert_desc, order_desc, ℕ, zero, suc, String, ◌≡◌, refl, [], length, ◌<>◌,
}
use honeypot_m1spro.Database.{
  empty_database, create_user, count_users, create_user_with_id, create_note, list_notes_for_owner,
  create_secret, list_secrets_for_owner,
}
use honeypot_m1spro.Database.Constraints.{IsConsistent-empty, IsConsistent}
use honeypot_m1spro.Security.Model.{model}
use honeypot_m1spro.Seed.{
  bob_id, seed_users, seed_notes, seed_secrets, seed_all, seed_if_empty, SeedDraws,
}
use honeypot_m1spro.Seed.Once.{seed_if_empty-once}

abbrev row_id : String → ℕ → String
row_id kind zero = kind
row_id kind (suc n) = row_id (kind <> "'") n

abbrev draws : SeedDraws
draws = record {
  salt = "s";
  note_id = row_id "n";
  secret_id = row_id "s";
  nonce = row_id "x";
  now = 7;
}

-- The generator of identifiers repeats itself: the second note raises, and no secret is stored.
abbrev repeating : SeedDraws
repeating = record draws { note_id = λ n. "n" }

seed : Unit {0}
unfolding seed_if_empty seed_all seed_users seed_notes seed_secrets create_user_with_id create_user
    create_note create_secret count_users list_notes_for_owner list_secrets_for_owner order_desc
    insert_desc
seed = tt

rows :
    (count_users (seed_if_empty model draws empty_database) ≡ 2)
    × (length (seed_if_empty model draws empty_database).notes ≡ 3)
    × (length (list_secrets_for_owner (seed_if_empty model draws empty_database) bob_id) ≡ 2)
    × (length (seed_if_empty model repeating empty_database).notes ≡ 1)
    × ((seed_if_empty model repeating empty_database).secrets ≡ [])
unfolding seed
rows = (refl, refl, refl, refl, refl)

seed_if_empty-once_example :
    (seed_if_empty model draws (seed_if_empty model repeating empty_database)
      ≡ seed_if_empty model repeating empty_database)
    × IsConsistent (seed_if_empty model repeating empty_database)
seed_if_empty-once_example =
    seed_if_empty-once model repeating draws empty_database IsConsistent-empty
