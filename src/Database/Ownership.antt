-- ===== src/Database/Ownership.antt =====
-- Access control by ownership: what a caller reads and deletes depends on its own rows alone.
use honeypot_m1spro.Base.{
  delete_where, order_desc, String, ◌≡◌, sym, ap, not, none, some, arith, ◌==◌, eq_iff, &&-true,
  is_some, select, fetch_one-some, is_some-fetch_one, fetch_one-select, select-select,
  fetch_one-delete,
}
use honeypot_m1spro.Database.{
  is_note, get_note_for_owner, list_notes_for_owner, delete_note_for_owner, is_secret,
  get_secret_for_owner, list_secrets_for_owner, delete_secret_for_owner, Note, Secret, Database,
}

-- The database without the notes and the secrets of the other users.
abbrev pub rows_of : String → Database → Database
rows_of owner db = record db {
  notes = select (λ n. n.owner_id == owner) db.notes;
  secrets = select (λ s. s.owner_id == owner) db.secrets;
}

-- The database without the notes and the secrets of one user.
abbrev pub rows_of_others : String → Database → Database
rows_of_others owner db = record db {
  notes = select (λ n. not (n.owner_id == owner)) db.notes;
  secrets = select (λ s. not (s.owner_id == owner)) db.secrets;
}

module _ (db : Database) (owner : String) where
  -- What a user can read of the notes, by an identifier and as a list, is what it could read if
  -- nobody else had any.
  pub notes_isolated :
      (note_id : String)
      → (get_note_for_owner db note_id owner ≡ get_note_for_owner (rows_of owner db) note_id owner)
        × (list_notes_for_owner db owner ≡ list_notes_for_owner (rows_of owner db) owner)
  unfolding get_note_for_owner list_notes_for_owner
  notes_isolated note_id = (
    sym (
        fetch_one-select (is_note note_id owner) (λ n. n.owner_id == owner) (λ n h. ground arith)
          db.notes),
    ap (order_desc (λ n. n.created_at)) (
        sym (
          select-select (λ n. n.owner_id == owner) (λ n. n.owner_id == owner) (λ n h. h) db.notes)),
  )

  -- A note that is read by its identifier has that identifier and belongs to the reader.
  get_note-owned :
      (note_id : String) {n : Note}
      → get_note_for_owner db note_id owner ≡ some n
      → (n.id ≡ note_id) × (n.owner_id ≡ owner)
  unfolding get_note_for_owner
  get_note-owned note_id {n} e =
      let hit = fetch_one-some (is_note note_id owner) db.notes e in
      let (same_id, same_owner) = &&-true (n.id == note_id) (n.owner_id == owner) hit in
      ((eq_iff n.id note_id).0 same_id, (eq_iff n.owner_id owner).0 same_owner)

  -- Deleting a note answers whether the caller owned it, leaves it unreadable, and changes no row of
  -- anybody else.
  delete_note-frame :
      (note_id : String)
      → ((delete_note_for_owner db note_id owner).0 ≡ is_some (get_note_for_owner db note_id owner))
        × (get_note_for_owner (delete_note_for_owner db note_id owner).1 note_id owner ≡ none)
        × (rows_of_others owner (delete_note_for_owner db note_id owner).1
            ≡ rows_of_others owner db)
  unfolding get_note_for_owner delete_note_for_owner delete_where
  delete_note-frame note_id = (
    sym (is_some-fetch_one (is_note note_id owner) db.notes),
    fetch_one-delete (is_note note_id owner) db.notes,
    ap (λ rows. record (rows_of_others owner db) { notes = rows })
        (select-select (λ n. not (n.owner_id == owner)) (λ n. not (is_note note_id owner n))
          (λ n h. ground arith) db.notes),
  )

  -- What a user can read of the secrets, by an identifier and as a list, is what it could read if
  -- nobody else had any.
  pub secrets_isolated :
      (secret_id : String)
      → (get_secret_for_owner db secret_id owner
          ≡ get_secret_for_owner (rows_of owner db) secret_id owner)
        × (list_secrets_for_owner db owner ≡ list_secrets_for_owner (rows_of owner db) owner)
  unfolding get_secret_for_owner list_secrets_for_owner
  secrets_isolated secret_id = (
    sym (
        fetch_one-select (is_secret secret_id owner) (λ s. s.owner_id == owner)
          (λ s h. ground arith) db.secrets),
    ap (order_desc (λ s. s.created_at)) (
        sym (
          select-select (λ s. s.owner_id == owner) (λ s. s.owner_id == owner) (λ s h. h)
            db.secrets)),
  )

  -- A secret that is read by its identifier has that identifier and belongs to the reader.
  get_secret-owned :
      (secret_id : String) {s : Secret}
      → get_secret_for_owner db secret_id owner ≡ some s
      → (s.id ≡ secret_id) × (s.owner_id ≡ owner)
  unfolding get_secret_for_owner
  get_secret-owned secret_id {s} e =
      let hit = fetch_one-some (is_secret secret_id owner) db.secrets e in
      let (same_id, same_owner) = &&-true (s.id == secret_id) (s.owner_id == owner) hit in
      ((eq_iff s.id secret_id).0 same_id, (eq_iff s.owner_id owner).0 same_owner)

  -- Deleting a secret answers whether the caller owned it, leaves it unreadable, and changes no row of
  -- anybody else.
  pub delete_secret-frame :
      (secret_id : String)
      → ((delete_secret_for_owner db secret_id owner).0
          ≡ is_some (get_secret_for_owner db secret_id owner))
        × (get_secret_for_owner (delete_secret_for_owner db secret_id owner).1 secret_id owner
            ≡ none)
        × (rows_of_others owner (delete_secret_for_owner db secret_id owner).1
            ≡ rows_of_others owner db)
  unfolding get_secret_for_owner delete_secret_for_owner delete_where
  delete_secret-frame secret_id = (
    sym (is_some-fetch_one (is_secret secret_id owner) db.secrets),
    fetch_one-delete (is_secret secret_id owner) db.secrets,
    ap (λ rows. record (rows_of_others owner db) { secrets = rows })
        (select-select (λ s. not (s.owner_id == owner)) (λ s. not (is_secret secret_id owner s))
          (λ s h. ground arith) db.secrets),
  )
