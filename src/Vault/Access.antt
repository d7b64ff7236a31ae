-- ===== src/Vault/Access.antt =====
-- What a user gets back of its notes and secrets, and what nobody else gets.
use honeypot_m1spro.Base.{
  fetch_one, ℕ, String, ◌≡◌, refl, ◌∙◌, inl, inr, false, not, ◌&&◌, ◌||◌, none, some, List, [], ◌∷◌,
  ◌++◌, arith, ◌==◌, eq_refl, if◌then◌else◌, Bool-cases, any, fetch_one-append_none,
}
use honeypot_m1spro.Http.{ok, http_error}
use honeypot_m1spro.Database.{has_user, create_note, get_note_for_owner, Note, Profile}
use honeypot_m1spro.Auth.{App}
use honeypot_m1spro.Vault.{create_note_route, get_note, NoteOut}

-- No row of a table without the identifier is found by it.
fetch_one-no_id :
    {A : Type 0} (id_of owner_of : A → String) (id owner : String) (rows : List A)
    → any (λ r. id_of r == id) rows ≡ false
    → fetch_one (λ r. id_of r == id && owner_of r == owner) rows ≡ none
unfolding fetch_one
fetch_one-no_id id_of owner_of id owner [] h = refl
fetch_one-no_id id_of owner_of id owner (r ∷ rows) h =
    ground (arith, fetch_one-no_id id_of owner_of id owner rows)

-- The last row is found by its identifier, for its owner alone.
pub fetch_one-last :
    {A : Type 0} (id_of owner_of : A → String) (reader : String) (rows : List A) (r : A)
    → any (λ x. id_of x == id_of r) rows ≡ false
    → fetch_one (λ x. id_of x == id_of r && owner_of x == reader) (rows ++ r ∷ [])
      ≡ (if owner_of r == reader then some r else none)
fetch_one-last id_of owner_of reader rows r h =
    fetch_one-append_none (λ x. id_of x == id_of r && owner_of x == reader) rows r
      (fetch_one-no_id id_of owner_of (id_of r) reader rows h)
    ∙ rw (eq_refl (id_of r)) refl

-- A note that was just created is the same for its author, and missing for anybody else.
pub create_note-get_note :
    (title body note_id : String) (now : ℕ) (user reader : Profile) (app : App) {out : NoteOut}
    → (create_note_route title body note_id now user app).0 ≡ ok out
    → (out ≡ record { id = note_id; owner_id = user.id; title = title; body = body })
      × ((get_note note_id reader (create_note_route title body note_id now user app).1).0
          ≡ (if user.id == reader.id then ok out else http_error 404 "Note introuvable." []))
unfolding create_note_route get_note create_note get_note_for_owner
create_note-get_note title body note_id now user reader app {out} e =
    elim (Bool-cases (any (λ n. n.id == note_id) app.db.notes || not (has_user app.db user.id))) [
      | inl refused ↦ absurd (ground arith)
      | inr free ↦
          let note : Note = record {
            id = note_id;
            owner_id = user.id;
            title = title;
            body = body;
            created_at = now;
          } in
          let found =
            fetch_one-last (λ n. n.id) (λ n. n.owner_id) reader.id app.db.notes note
              (ground arith) in
          (ground arith, ground (arith, found))
    ]
