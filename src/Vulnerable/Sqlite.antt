-- ===== src/Vulnerable/Sqlite.antt =====
-- A small engine for the query of the login, and a codec of identifiers: the laws can hold.
use honeypot_m1spro.Vulnerable.Token.{padding, object, Codec}
use text.Mathlib.TextLemmas.{nil-append, cons-append, append-nil, cons-ne-nil}
use mathlib.Core.Option.{some-injective}
use honeypot_m1spro.Base.{
  Bool, not, ==-false, ◌||◌, inl, inr, sym, Bool-cases, fetch_one, ℕ, zero, suc, ◌%◌, Char, code,
  String, ◌≡◌, refl, ap, ◌∙◌, true, false, ◌&&◌, Option, none, some, List, arith, ◌==◌, eqb,
  if◌then◌else◌, ◌<>◌, size, skip, skip-size, has_char,
}
use honeypot_m1spro.Vulnerable.{VulnUser}
use honeypot_m1spro.Vulnerable.Routes.{SqlEngine}
use honeypot_m1spro.Vulnerable.Injection.{
  is_plain, is_id, is_special, turned, scan, scan-append, scan-plain, IsSqlite, IsCodec,
}

-- The text before a comment; the engine takes any dash outside of a literal for one.
unfoldable pub without_comment : Bool → String → String
without_comment inside String.[] = ""
without_comment inside (String.◌∷◌ c s) =
    let rest = without_comment (turned inside (code c)) s in
    if not inside && eqb (code c) b'-' then "" else String.◌∷◌ c rest

-- A text literal behind its opening quote, and what follows its closing one.
abbrev before : Char → String × String → String × String
before c (line, rest) = (String.◌∷◌ c line, rest)

unfoldable pub until_quote : String → String × String
until_quote String.[] = ("", "")
until_quote (String.◌∷◌ c s) =
    let more = until_quote s in if eqb (code c) b'\'' then ("", s) else before c more

abbrev query_start : String
query_start = "SELECT id, username FROM users WHERE username = '"

abbrev query_middle : String
query_middle = " AND password = '"

abbrev read_query : String × String → List VulnUser → Option (Option VulnUser)
read_query (u, rest) users =
    if rest == ""
    then some (fetch_one (λ v. v.username == u) users)
    else some (
        fetch_one
          (λ v. v.username == u && v.password == (until_quote (skip (size query_middle) rest)).0)
          users)

abbrev pub small_sql : SqlEngine
small_sql = record {
  select_user =
      λ q users. read_query (until_quote (skip (size query_start) (without_comment false q))) users;
}

until_quote-append :
    (s t : String) → is_plain s ≡ true → until_quote (s <> String.◌∷◌ "'" t) ≡ (s, t)
unfolding until_quote
until_quote-append String.[] t h = rw (nil-append (String.◌∷◌ "'" t)) refl
until_quote-append (String.◌∷◌ c s) t h =
    rw (cons-append c s (String.◌∷◌ "'" t)) (ground (arith, until_quote-append s t))

quote-append : (s t : String) → String.◌∷◌ "'" s <> t ≡ String.◌∷◌ "'" (s <> t)
quote-append s t = cons-append "'" s t

-- A text that is scanned to its end holds no comment.
without_comment-append :
    (a b : Bool) (s t : String)
    → scan a s ≡ some b
    → without_comment a (s <> t) ≡ s <> without_comment b t
unfolding without_comment scan
without_comment-append a b String.[] t h =
    rw (nil-append t, some-injective a b h) (sym (nil-append (without_comment b t)))
without_comment-append a b (String.◌∷◌ c s) t h =
    ap (without_comment a) (cons-append c s t)
    ∙ elim (Bool-cases (eqb (code c) 0 || (not a && is_special (code c)))) [
      | inl bad ↦ absurd (let no : none ≡ some b = rw bad at h in cc)
      | inr fine ↦
          let solid : (not a && eqb (code c) b'-') ≡ false = ground arith in
          rw solid (
            ap (String.◌∷◌ c) (without_comment-append (turned a (code c)) b s t (rw fine at h))
            ∙ sym (cons-append c s (without_comment b t)))
    ]

without_comment-whole : (a b : Bool) (s : String) → scan a s ≡ some b → without_comment a s ≡ s
without_comment-whole a b s h =
    let stop : without_comment b "" ≡ "" = unfold without_comment in refl in
    ap (without_comment a) (sym (append-nil s))
    ∙ without_comment-append a b s "" h
    ∙ ap (λ t. s <> t) stop
    ∙ append-nil s

-- A query without a comment is read up to the end of its first literal.
first_literal :
    (u t : String) (users : List VulnUser)
    → is_plain u ≡ true
    → scan false t ≡ some false
    → small_sql.select_user (query_start <> u <> String.◌∷◌ "'" t) users ≡ read_query (u, t) users
first_literal u t users h k =
    let closed : scan false (query_start <> u <> String.◌∷◌ "'" t) ≡ some false =
      scan-append false true query_start (u <> String.◌∷◌ "'" t) (unfold scan in refl)
      ∙ scan-append true true u (String.◌∷◌ "'" t) (scan-plain u h)
      ∙ unfold scan in k in
    ap (λ q. read_query (until_quote (skip (size query_start) q)) users)
      (without_comment-whole false false (query_start <> u <> String.◌∷◌ "'" t) closed)
    ∙ ap (λ q. read_query (until_quote q) users) (skip-size query_start (u <> String.◌∷◌ "'" t))
    ∙ ap (λ r. read_query r users) (until_quote-append u t h)

-- What stands behind the literal of the name, in the query as it is meant.
abbrev password_part : String → String
password_part p = query_middle <> p <> "'"

scan-password_part : (p : String) → is_plain p ≡ true → scan false (password_part p) ≡ some false
scan-password_part p h =
    scan-append false true query_middle (p <> "'") (unfold scan in refl)
    ∙ scan-append true true p "'" (scan-plain p h)
    ∙ unfold scan in refl

read_query-password :
    (u p : String) (users : List VulnUser)
    → is_plain p ≡ true
    → read_query (u, password_part p) users
      ≡ some (fetch_one (λ v. v.username == u && v.password == p) users)
read_query-password u p users h =
    let more : (password_part p == "") ≡ false = ==-false (password_part p) "" (λ e.
      cons-ne-nil " " ("AND password = '" <> p <> "'")
        (sym (cons-append " " "AND password = '" (p <> "'")) ∙ e)) in
    let literal : (until_quote (skip (size query_middle) (password_part p))).0 ≡ p =
      ap (λ t. (until_quote t).0) (skip-size query_middle (p <> "'"))
      ∙ ap (λ r. r.0) (until_quote-append p "" h) in
    rw more (ap (λ q. some (fetch_one (λ v. v.username == u && v.password == q) users)) literal)

pub small_sql-IsSqlite : IsSqlite small_sql
small_sql-IsSqlite = record {
  one_literal = λ u users pu. first_literal u "" users pu (unfold scan in refl);
  two_literals = λ u p users pu pp.
      ap (λ t. small_sql.select_user (query_start <> u <> t) users)
        (quote-append query_middle (p <> "'"))
      ∙ first_literal u (password_part p) users pu (scan-password_part p pp)
      ∙ read_query-password u p users pp;
  comment = λ q r users closed line.
      let cut : without_comment false (String.◌∷◌ "-" ("-" <> r)) ≡ "" =
        unfold without_comment in refl in
      ap (λ s. read_query (until_quote (skip (size query_start) s)) users)
        (without_comment-append false false q ("--" <> r) closed
          ∙ ap (λ s. q <> s) (ap (without_comment false) (cons-append "-" "-" r) ∙ cut)
          ∙ append-nil q
          ∙ sym (without_comment-whole false false q closed));
}

-- Identifiers as they are, up to the padding.
unfoldable pub until_padding : String → String
until_padding String.[] = ""
until_padding (String.◌∷◌ c s) =
    let more = until_padding s in if eqb (code c) b'=' then "" else String.◌∷◌ c more

abbrev pub small_codec : Codec
small_codec = record {
  encode = λ raw. raw;
  decode = λ seg. some (until_padding seg);
  loads = λ raw. some (object (some raw) none);
  header_json = "h";
  payload_json = λ sub. sub;
}

until_padding-append : (n : ℕ) (s : String) → is_id s ≡ true → until_padding (s <> padding n) ≡ s
unfolding until_padding
until_padding-append zero String.[] h = refl
until_padding-append (suc zero) String.[] h = refl
until_padding-append (suc (suc zero)) String.[] h = refl
until_padding-append (suc (suc (suc n))) String.[] h = refl
until_padding-append n (String.◌∷◌ c s) h =
    rw (cons-append c s (padding n)) (ground (arith, until_padding-append n s))

is_id_dotless : (s : String) → is_id s ≡ true → has_char b'.' s ≡ false
is_id_dotless String.[] h = refl
is_id_dotless (String.◌∷◌ c s) h = ground (arith, is_id_dotless s)

pub small_codec-IsCodec : IsCodec small_codec
small_codec-IsCodec = record {
  header_dotless = refl;
  payload_dotless = is_id_dotless;
  decode-encode = λ sub i. ap some (until_padding-append (size sub % 4) sub i);
  loads-payload = λ sub i. refl;
}
