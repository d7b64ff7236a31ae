-- ===== src/Vulnerable/Injection.antt =====
-- vuln_app/main.py: what a quote in the name of a login does.
use text.Mathlib.TextLemmas.{nil-append, cons-append, append_assoc}
use honeypot_m1spro.Base.{
  Option, code, refl, inl, inr, arith, Bool-cases, &&-true, sym, if◌then◌else◌, fetch_one, ℕ,
  String, ◌≡◌, ap, ◌∙◌, Bool, true, false, not, ◌&&◌, ◌||◌, none, some, List, ◌==◌, leb, eqb, ◌<>◌,
  has_char, all_chars, Distinct, fetch_one_unique,
}
use honeypot_m1spro.Http.{ok}
use honeypot_m1spro.Vulnerable.{VulnUser, VulnDb}
use honeypot_m1spro.Vulnerable.Token.{
  pad, issue_token, loads_of, not_null, decode_unverified, object, Codec,
}
use honeypot_m1spro.Vulnerable.Routes.{
  user_id, login_query, answer_login, login, me_or_claims, me_of, users_me, SqlEngine, account,
}
use honeypot_m1spro.Vulnerable.Ownership.{decode_unverified_unsigned}

-- A text without a quote, a line feed or a NUL.
abbrev plain_code : ℕ → Bool
plain_code n = not (eqb n b'\'') && not (eqb n b'\n') && not (eqb n 0)

abbrev pub is_plain : String → Bool
is_plain s = all_chars plain_code s

-- An identifier as `uuid4` writes it: digits, small letters and dashes.
abbrev id_code : ℕ → Bool
id_code n = leb 48 n && leb n 57 || leb 97 n && leb n 122 || eqb n b'-'

abbrev pub is_id : String → Bool
is_id s = all_chars id_code s

-- Whether a text may stand in a comment that ends with the query: no line feed, no NUL.
abbrev comment_code : ℕ → Bool
comment_code n = not (eqb n b'\n') && not (eqb n 0)

abbrev pub is_one_line : String → Bool
is_one_line s = all_chars comment_code s

-- Where a text of SQL ends that begins inside or outside of a literal: a quote ends or begins one. `none`
-- stands for a NUL, and for what begins another name or a comment outside of a literal: a double quote, a
-- backquote, a bracket, a dash or a slash.
abbrev pub is_special : ℕ → Bool
is_special n = eqb n b'"' || eqb n 96 || eqb n b'[' || eqb n b'-' || eqb n b'/'

abbrev pub turned : Bool → ℕ → Bool
turned inside n = if eqb n b'\'' then not inside else inside

unfoldable pub scan : Bool → String → Option Bool
scan inside String.[] = some inside
scan inside (String.◌∷◌ c s) =
    let rest = scan (turned inside (code c)) s in
    if eqb (code c) 0 || (not inside && is_special (code c)) then none else rest

-- SQLite: a query for the rows of one name, and of one name and one password, each a text literal; and
-- two dashes outside of a literal start a comment up to the end of the line.
pub record IsSqlite (sql : SqlEngine) : Type 0 where
  pub one_literal :
      (u : String) (users : List VulnUser)
      → is_plain u ≡ true
      → sql.select_user ("SELECT id, username FROM users WHERE username = '" <> u <> "'") users
        ≡ some (fetch_one (λ v. v.username == u) users)
  pub two_literals :
      (u p : String) (users : List VulnUser)
      → is_plain u ≡ true
      → is_plain p ≡ true
      → sql.select_user
          ("SELECT id, username FROM users WHERE username = '" <> u <> "' AND password = '" <> p
            <> "'")
          users
        ≡ some (fetch_one (λ v. v.username == u && v.password == p) users)
  pub comment :
      (q r : String) (users : List VulnUser)
      → scan false q ≡ some false
      → is_one_line r ≡ true
      → sql.select_user (q <> "--" <> r) users ≡ sql.select_user q users

pub scan-append : (a b : Bool) (s t : String) → scan a s ≡ some b → scan a (s <> t) ≡ scan b t
unfolding scan
scan-append a b String.[] t h = rw (nil-append t) (ap (λ o. scan_or o t) h)
  where
    scan_or : Option Bool → String → Option Bool
    scan_or none s = none
    scan_or (some inside) s = scan inside s
scan-append a b (String.◌∷◌ c s) t h =
    ap (scan a) (cons-append c s t)
    ∙ elim (Bool-cases (eqb (code c) 0 || (not a && is_special (code c)))) [
      | inl bad ↦ absurd (let no : none ≡ some b = rw bad at h in cc)
      | inr fine ↦ rw fine (scan-append (turned a (code c)) b s t (rw fine at h))
    ]

-- A text without a quote stays inside of its literal.
pub scan-plain : (u : String) → is_plain u ≡ true → scan true u ≡ some true
unfolding scan
scan-plain String.[] h = refl
scan-plain (String.◌∷◌ c u) h = ground (arith, scan-plain u (ground arith))

all_chars-append :
    (p : ℕ → Bool) (s t : String)
    → all_chars p s ≡ true
    → all_chars p t ≡ true
    → all_chars p (s <> t) ≡ true
all_chars-append p String.[] t h k = rw (nil-append t) k
all_chars-append p (String.◌∷◌ c s) t h k =
    let (here, more) = &&-true (p (code c)) _ h in
    ap (all_chars p) (cons-append c s t) ∙ rw here (all_chars-append p s t more k)

-- The query of a login whose name ends in a quote and two dashes asks for the name alone.
login_query-commented :
    (sql : SqlEngine)
    → IsSqlite sql
    → (u p : String) (users : List VulnUser) → is_plain u ≡ true
    → is_one_line p ≡ true
    → sql.select_user (login_query (u <> "'--") p) users
      ≡ some (fetch_one (λ v. v.username == u) users)
unfolding login_query
login_query-commented sql h u p users pu pp =
    let start : String = "SELECT id, username FROM users WHERE username = '" in
    let rest : String = "' AND password = '" <> p <> "'" in
    let closed : scan false (start <> u <> "'") ≡ some false =
      scan-append false true start (u <> "'") (unfold scan in refl)
      ∙ scan-append true true u "'" (scan-plain u pu)
      ∙ unfold scan in refl in
    ap (λ t. sql.select_user t users) (regroup start u rest)
    ∙ h.comment (start <> u <> "'") rest users closed (
        all_chars-append comment_code "' AND password = '" (p <> "'") refl
          (all_chars-append comment_code p "'" pp refl))
    ∙ h.one_literal u users pu
  where
    regroup : (a b c : String) → a <> (b <> "'--") <> c ≡ (a <> b <> "'") <> "--" <> c
    regroup a b c =
        ap (λ t. a <> t)
          (append_assoc b "'--" c
            ∙ ap (λ t. b <> t) (append_assoc "'" "--" c)
            ∙ sym (append_assoc b "'" ("--" <> c)))
        ∙ sym (append_assoc a (b <> "'") ("--" <> c))

-- Base64 with the URL alphabet has no dot, and decoding inverts it; JSON reads back what it wrote.
pub record IsCodec (k : Codec) : Type 0 where
  pub header_dotless : has_char b'.' (k.encode k.header_json) ≡ false
  pub payload_dotless :
      (sub : String) → is_id sub ≡ true → has_char b'.' (k.encode (k.payload_json sub)) ≡ false
  pub decode-encode :
      (sub : String)
      → is_id sub ≡ true
      → k.decode (pad (k.encode (k.payload_json sub))) ≡ some (k.payload_json sub)
  pub loads-payload :
      (sub : String)
      → is_id sub ≡ true
      → k.loads (k.payload_json sub) ≡ some (object (some sub) none)

-- A token that the application issues names its account.
decode_unverified-issue_token :
    (k : Codec) (sub : String)
    → IsCodec k
    → is_id sub ≡ true
    → decode_unverified k (some ("Bearer " <> issue_token k sub)) ≡ some (object (some sub) none)
unfolding issue_token
decode_unverified-issue_token k sub h i =
    decode_unverified_unsigned k (k.encode k.header_json) (k.encode (k.payload_json sub))
      "insecuresignature" h.header_dotless (h.payload_dotless sub i)
    ∙ ap (λ raw. not_null (loads_of k raw)) (h.decode-encode sub i)
    ∙ ap not_null (h.loads-payload sub i)

-- Where the name of a stored account is known and has no quote, line feed or NUL, a quote and two dashes
-- behind it log in to that account with any password that has no line feed or NUL, and the token that
-- comes back makes `/users/me` tell the account's password.
pub injection_takeover :
    (k : Codec) (sql : SqlEngine)
    → IsCodec k
    → IsSqlite sql
    → (u p : String) (v : VulnUser) (db : VulnDb) → is_plain u ≡ true
    → is_one_line p ≡ true
    → Distinct user_id db.users
    → fetch_one (λ (w : VulnUser). w.username == u) db.users ≡ some v
    → is_id v.id ≡ true
    → let tok = issue_token k v.id in
      (login k sql (u <> "'--") p db ≡ ok (record { access_token = tok; refresh_token = tok }))
      × (users_me k (some ("Bearer " <> tok)) db ≡ ok (account v.id v.username v.email v.password))
unfolding login users_me
injection_takeover k sql hk hs u p v db pu pp distinct there i = (
  ap (answer_login k) (login_query-commented sql hs u p db.users pu pp)
      ∙ ap (λ row. answer_login k (some row)) there,
  ap (me_of db) (decode_unverified-issue_token k v.id hk i)
      ∙ ap (λ row. ok (me_or_claims (some v.id) none row))
          (fetch_one_unique user_id (λ (w : VulnUser). w.username == u) db.users distinct there),
)

-- Without a quote, the login asks for the name and the password of one row.
pub login-plain :
    (k : Codec) (sql : SqlEngine)
    → IsSqlite sql
    → (u p : String) (db : VulnDb) → is_plain u ≡ true
    → is_plain p ≡ true
    → login k sql u p db
      ≡ answer_login k (some (fetch_one (λ v. v.username == u && v.password == p) db.users))
unfolding login login_query
login-plain k sql h u p db pu pp = ap (answer_login k) (h.two_literals u p db.users pu pp)
