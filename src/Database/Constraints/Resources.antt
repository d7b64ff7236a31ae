-- ===== src/Database/Constraints/Resources.antt =====
-- The constraints and the statements on notes and secrets.
use mathlib.Core.Option.{some-injective}
use honeypot_m1spro.Base.{
  delete_where, ℕ, String, ◌≡◌, ap, subst, inl, inr, true, false, not, ◌||◌, Option, none, some, [],
  ◌∷◌, ◌++◌, arith, ◌==◌, eq_iff, Bool-cases, any, All-append, All-keep, Distinct-select,
  Distinct-append, All-apart,
}
use honeypot_m1spro.Database.{
  has_user, create_note, delete_note_for_owner, create_secret, delete_secret_for_owner, Note,
  Secret, Database,
}
use honeypot_m1spro.Database.Constraints.{IsConsistent}

add_note-IsConsistent :
    (db : Database) (n : Note)
    → IsConsistent db
    → any (λ m. m.id == n.id) db.notes ≡ false
    → has_user db n.owner_id ≡ true
    → IsConsistent (record db { notes = db.notes ++ n ∷ [] })
add_note-IsConsistent db n k free owned = record {
  user_ids = k.user_ids;
  usernames = k.usernames;
  emails = k.emails;
  note_ids =
      Distinct-append (λ m. m.id) db.notes n k.note_ids
        (All-apart (λ m. m.id == n.id) (λ m. m.id) n.id db.notes
          (λ m e. ground (arith, eq_iff m.id n.id)) free);
  secret_ids = k.secret_ids;
  note_owners = All-append _ db.notes (n ∷ []) k.note_owners (owned, tt);
  secret_owners = k.secret_owners;
  mfa = k.mfa;
}

pub create_note-IsConsistent :
    (db : Database) (id owner_id title body : String) (now : ℕ) {n : Note} {db' : Database}
    → IsConsistent db
    → create_note db id owner_id title body now ≡ some (n, db')
    → IsConsistent db'
unfolding create_note
create_note-IsConsistent db id owner_id title body now {n} {db'} k e =
    elim (Bool-cases (any (λ m. m.id == id) db.notes || not (has_user db owner_id))) [
      | inl bad ↦
          let no : ◌≡◌ {A = Option (Note × Database)} none (some (n, db')) = rw bad at e in cc
      | inr good ↦
          subst IsConsistent (ap (λ r. r.1) (some-injective _ (n, db') (rw good at e)))
            (add_note-IsConsistent db _ k (ground arith) (ground arith))
    ]

pub delete_note-IsConsistent :
    (db : Database) (note_id owner_id : String)
    → IsConsistent db
    → IsConsistent (delete_note_for_owner db note_id owner_id).1
unfolding delete_note_for_owner delete_where
delete_note-IsConsistent db note_id owner_id k = record {
  user_ids = k.user_ids;
  usernames = k.usernames;
  emails = k.emails;
  note_ids = Distinct-select (λ n. n.id) _ db.notes k.note_ids;
  secret_ids = k.secret_ids;
  note_owners = All-keep _ _ db.notes k.note_owners;
  secret_owners = k.secret_owners;
  mfa = k.mfa;
}

add_secret-IsConsistent :
    (db : Database) (n : Secret)
    → IsConsistent db
    → any (λ m. m.id == n.id) db.secrets ≡ false
    → has_user db n.owner_id ≡ true
    → IsConsistent (record db { secrets = db.secrets ++ n ∷ [] })
add_secret-IsConsistent db n k free owned = record {
  user_ids = k.user_ids;
  usernames = k.usernames;
  emails = k.emails;
  secret_ids =
      Distinct-append (λ m. m.id) db.secrets n k.secret_ids
        (All-apart (λ m. m.id == n.id) (λ m. m.id) n.id db.secrets
          (λ m e. ground (arith, eq_iff m.id n.id)) free);
  note_ids = k.note_ids;
  secret_owners = All-append _ db.secrets (n ∷ []) k.secret_owners (owned, tt);
  note_owners = k.note_owners;
  mfa = k.mfa;
}

pub create_secret-IsConsistent :
    (db : Database) (id owner_id label value_enc : String) (now : ℕ) {n : Secret} {db' : Database}
    → IsConsistent db
    → create_secret db id owner_id label value_enc now ≡ some (n, db')
    → IsConsistent db'
unfolding create_secret
create_secret-IsConsistent db id owner_id label value_enc now {n} {db'} k e =
    elim (Bool-cases (any (λ m. m.id == id) db.secrets || not (has_user db owner_id))) [
      | inl bad ↦
          let no : ◌≡◌ {A = Option (Secret × Database)} none (some (n, db')) = rw bad at e in cc
      | inr good ↦
          subst IsConsistent (ap (λ r. r.1) (some-injective _ (n, db') (rw good at e)))
            (add_secret-IsConsistent db _ k (ground arith) (ground arith))
    ]

pub delete_secret-IsConsistent :
    (db : Database) (secret_id owner_id : String)
    → IsConsistent db
    → IsConsistent (delete_secret_for_owner db secret_id owner_id).1
unfolding delete_secret_for_owner delete_where
delete_secret-IsConsistent db secret_id owner_id k = record {
  user_ids = k.user_ids;
  usernames = k.usernames;
  emails = k.emails;
  secret_ids = Distinct-select (λ n. n.id) _ db.secrets k.secret_ids;
  note_ids = k.note_ids;
  secret_owners = All-keep _ _ db.secrets k.secret_owners;
  note_owners = k.note_owners;
  mfa = k.mfa;
}
