-- ===== src/Schemas/Accepted.antt =====
-- What the handlers may assume of a body that the schemas accept.
use honeypot_m1spro.Base.{
  lookup, ℕ, ◌≤◌, Char, String, ◌≡◌, sym, subst, inl, inr, true, false, Option, none, some, [], ◌∷◌,
  arith, Bool-cases, Option-cases, size,
}
use honeypot_m1spro.Validators.Chars.{chomp, lower}
use honeypot_m1spro.Validators.{one_of, forbidden_usernames}
use honeypot_m1spro.Validators.Usernames.{IsUsername, validate_username-IsUsername}
use honeypot_m1spro.Validators.Passwords.{IsStrong, validate_password_iff}
use honeypot_m1spro.Auth.{RegisterIn}
use honeypot_m1spro.Schemas.{
  Body, only_keys, check_text, field, is_valid_register, register_in, Json, text, null, other,
}

check_text-size :
    (a b : ℕ) (j : Option Json) {s : String}
    → check_text a b j ≡ some s
    → (a ≤ size s) × (size s ≤ b)
unfolding check_text
check_text-size a b none e = absurd (ground arith)
check_text-size a b (some null) e = absurd (ground arith)
check_text-size a b (some other) e = absurd (ground arith)
check_text-size a b (some (text t)) {s} e = ground arith

-- A registration that is accepted has no other fields, a user name of the promised shape up to a
-- final line feed, which is no reserved name, and a strong password of at most 256 characters.
pub register_in-valid :
    (wide : Char → String) (nfkc : String → String) (body : Body) {p : RegisterIn}
    → ((c : Char) → 1 ≤ size (wide c))
    → register_in wide nfkc body ≡ some p
    → (only_keys ("username" ∷ "email" ∷ "password" ∷ []) body ≡ true)
      × IsUsername (chomp p.username)
      × (one_of (lower wide p.username) forbidden_usernames ≡ false)
      × (size p.username ≤ 30)
      × IsStrong p.password
      × (size p.password ≤ 256)
unfolding register_in field is_valid_register
register_in-valid wide nfkc body {p} h e =
    elim (Bool-cases (only_keys ("username" ∷ "email" ∷ "password" ∷ []) body)) [
      | inr extra ↦ absurd (ground arith)
      | inl known ↦ elim (Option-cases (field "username" 3 30 body)) [
        | inl missing ↦ absurd (ground arith)
        | inr (username, u) ↦ elim (Option-cases (field "email" 0 254 body)) [
          | inl missing ↦ absurd (ground arith)
          | inr (email, m) ↦ elim (Option-cases (field "password" 12 256 body)) [
            | inl missing ↦ absurd (ground arith)
            | inr (password, w) ↦
                elim (Bool-cases (is_valid_register wide nfkc username email password)) [
                  | inr invalid ↦ absurd (ground arith)
                  | inl valid ↦
                      let name : p.username ≡ username = ground arith in
                      let word : p.password ≡ password = ground arith in
                      let (shape, free) =
                        validate_username-IsUsername wide username (ground arith) in
                      let strong : IsStrong password =
                        (validate_password_iff wide h password).0 (ground arith) in
                      let (_, short) = check_text-size 3 30 (lookup "username" body) u in
                      let (_, bounded) = check_text-size 12 256 (lookup "password" body) w in
                      (
                        known,
                        subst (λ t. IsUsername (chomp t)) (sym name) shape,
                        subst (λ t. one_of (lower wide t) forbidden_usernames ≡ false) (sym name)
                            free,
                        rw name short,
                        subst IsStrong (sym word) strong,
                        rw word bounded,
                      )
                ]
          ]
        ]
      ]
    ]
