-- ===== src/Database/Constraints.antt =====
-- The constraints of the schema hold in every state that the repository produces.
pub mod Resources
use mathlib.Core.Option.{some-injective}
use honeypot_m1spro.Base.{
  update_where, String, ◌≡◌, refl, subst, inl, inr, Bool, true, false, not, ◌||◌, Option, none,
  some, List, [], ◌∷◌, ◌++◌, arith, ◌==◌, eq_iff, Bool-cases, is_some, any, All, All-append,
  Distinct, All-update, Distinct-update, Distinct-append, All-apart, fetch_one_unique,
  All-update_key,
}
use honeypot_m1spro.Database.{
  empty_database, user_conflict, has_user, create_user, get_user_by_username, update_user,
  enable_mfa, User, Database,
}

-- An account with MFA has a TOTP secret.
abbrev has_mfa_secret : User → Bool
has_mfa_secret u = not u.mfa_enabled || is_some u.mfa_secret

-- The primary keys, the `UNIQUE` columns, the foreign keys, and the secrets of the MFA accounts.
pub record IsConsistent (db : Database) : Type 0 where
  pub user_ids : Distinct (λ u. u.id) db.users
  pub usernames : Distinct (λ u. u.username) db.users
  pub emails : Distinct (λ u. u.email) db.users
  pub note_ids : Distinct (λ n. n.id) db.notes
  pub secret_ids : Distinct (λ s. s.id) db.secrets
  pub note_owners : All (λ n. has_user db n.owner_id ≡ true) db.notes
  pub secret_owners : All (λ s. has_user db s.owner_id ≡ true) db.secrets
  pub mfa : All (λ u. has_mfa_secret u ≡ true) db.users

pub IsConsistent-empty : IsConsistent empty_database
IsConsistent-empty = record {
  user_ids = tt;
  usernames = tt;
  emails = tt;
  note_ids = tt;
  secret_ids = tt;
  note_owners = tt;
  secret_owners = tt;
  mfa = tt;
}

any-append :
    (p : User → Bool) (us : List User) (u : User) → any p us ≡ true → any p (us ++ u ∷ []) ≡ true
any-append p [] u h = cc
any-append p (v ∷ us) u h = ground (arith, any-append p us u)

All-implies :
    {A : Type 0} (P Q : A → Type 0) (xs : List A) → ((x : A) → P x → Q x) → All P xs → All Q xs
All-implies P Q [] h k = tt
All-implies P Q (x ∷ xs) h (here, more) = (h x here, All-implies P Q xs h more)

-- A row whose keys are free.
add_user-IsConsistent :
    (db : Database) (u : User)
    → IsConsistent db
    → any (user_conflict u.id u.username u.email) db.users ≡ false
    → has_mfa_secret u ≡ true
    → IsConsistent (record db { users = db.users ++ u ∷ [] })
add_user-IsConsistent db u k free mfa =
    let p : User → Bool = user_conflict u.id u.username u.email in
    record {
      user_ids =
          Distinct-append (λ v. v.id) db.users u k.user_ids
            (All-apart p (λ v. v.id) u.id db.users (λ v e. ground (arith, eq_iff v.id u.id)) free);
      usernames =
          Distinct-append (λ v. v.username) db.users u k.usernames
            (All-apart p (λ v. v.username) u.username db.users
              (λ v e. ground (arith, eq_iff v.username u.username)) free);
      emails =
          Distinct-append (λ v. v.email) db.users u k.emails
            (All-apart p (λ v. v.email) u.email db.users
              (λ v e. ground (arith, eq_iff v.email u.email)) free);
      note_ids = k.note_ids;
      secret_ids = k.secret_ids;
      note_owners =
          All-implies _ _ db.notes (λ n. any-append (λ v. v.id == n.owner_id) db.users u)
            k.note_owners;
      secret_owners =
          All-implies _ _ db.secrets (λ s. any-append (λ v. v.id == s.owner_id) db.users u)
            k.secret_owners;
      mfa = All-append _ db.users (u ∷ []) k.mfa (mfa, tt);
    }

-- `INSERT INTO users` keeps the constraints.
pub create_user-IsConsistent :
    (db : Database) (id username email password_hash : String) {db' : Database}
    → IsConsistent db
    → create_user db id username email password_hash ≡ some db'
    → IsConsistent db'
unfolding create_user
create_user-IsConsistent db id username email password_hash {db'} k e =
    elim (Bool-cases (any (user_conflict id username email) db.users)) [
      | inl clash ↦ let no : ◌≡◌ {A = Option Database} none (some db') = rw clash at e in cc
      | inr free ↦
          subst IsConsistent (some-injective _ db' (rw free at e))
            (add_user-IsConsistent db _ k free refl)
    ]

any-update :
    (p q : User → Bool) (f : User → User) (us : List User)
    → ((u : User) → p u ≡ true → p (f u) ≡ true)
    → any p us ≡ true
    → any p (update_where q f us) ≡ true
unfolding update_where
any-update p q f [] h k = cc
any-update p q f (u ∷ us) h k = ground (arith, h u, any-update p q f us h)

-- An update of columns that are no keys keeps the constraints, if it keeps the one on MFA.
update_rows-IsConsistent :
    (db : Database) (user_id : String) (f : User → User)
    → ((u : User) → ((f u).id ≡ u.id) × ((f u).username ≡ u.username) × ((f u).email ≡ u.email))
    → All (λ u. has_mfa_secret u ≡ true) (update_where (λ u. u.id == user_id) f db.users)
    → IsConsistent db
    → IsConsistent (update_user user_id f db)
unfolding update_user
update_rows-IsConsistent db user_id f keys mfa k =
    let q : User → Bool = λ u. u.id == user_id in
    let owner_kept : (id : String) (u : User) → (u.id == id) ≡ true → ((f u).id == id) ≡ true =
      λ id u e. rw ((keys u).0) e in
    record {
      user_ids = Distinct-update (λ v. v.id) q f (λ v. (keys v).0) db.users k.user_ids;
      usernames = Distinct-update (λ v. v.username) q f (λ v. (keys v).1) db.users k.usernames;
      emails = Distinct-update (λ v. v.email) q f (λ v. (keys v).2) db.users k.emails;
      note_ids = k.note_ids;
      secret_ids = k.secret_ids;
      note_owners =
          All-implies _ _ db.notes
            (λ n. any-update (λ v. v.id == n.owner_id) q f db.users (owner_kept n.owner_id))
            k.note_owners;
      secret_owners =
          All-implies _ _ db.secrets
            (λ s. any-update (λ v. v.id == s.owner_id) q f db.users (owner_kept s.owner_id))
            k.secret_owners;
      mfa = mfa;
    }

pub update_user-IsConsistent :
    (db : Database) (user_id : String) (f : User → User)
    → ((u : User) → ((f u).id ≡ u.id) × ((f u).username ≡ u.username) × ((f u).email ≡ u.email))
    → ((u : User) → has_mfa_secret u ≡ true → has_mfa_secret (f u) ≡ true)
    → IsConsistent db
    → IsConsistent (update_user user_id f db)
update_user-IsConsistent db user_id f keys mfa k =
    update_rows-IsConsistent db user_id f keys
      (All-update (λ v. has_mfa_secret v ≡ true) (λ u. u.id == user_id) f mfa db.users k.mfa) k

-- MFA is switched on for an account that was found with a secret.
pub enable_mfa-IsConsistent :
    (db : Database) (username : String) {u : User}
    → get_user_by_username db username ≡ some u
    → is_some u.mfa_secret ≡ true
    → IsConsistent db
    → IsConsistent (enable_mfa db u.id)
unfolding get_user_by_username enable_mfa
enable_mfa-IsConsistent db username {u} found secret k =
    let row =
      fetch_one_unique (λ v. v.id) (λ v. v.username == username) db.users k.user_ids found in
    update_rows-IsConsistent db u.id (λ v. record v { mfa_enabled = true })
      (λ v. (refl, refl, refl))
      (All-update_key (λ v. has_mfa_secret v ≡ true) (λ v. v.id) _ u.id db.users k.user_ids row
        secret k.mfa)
      k
