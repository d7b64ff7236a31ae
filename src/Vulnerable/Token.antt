-- ===== src/Vulnerable/Token.antt =====
-- vuln_app/main.py: the tokens, whose signature nobody checks.
use honeypot_m1spro.Base.{
  split_on, ℕ, zero, suc, ◌+◌, ◌%◌, code, String, Bool, true, false, ◌&&◌, Option, none, some, List,
  [], ◌∷◌, leb, eqb, if◌then◌else◌, ◌<>◌, size, skip,
}

-- What `json.loads` may give: an object with its `sub` and `username`, null, or another value, which is
-- true or false. A `sub` that is no text is not modelled.
pub data Payload : Type 0 where
  object : Option String → Option String → Payload
  null_value : Payload
  other : Bool → Payload

-- The library's functions: `urlsafe_b64encode` without its padding, `urlsafe_b64decode`, and the JSON of
-- the two objects of a token; `none` is an exception.
pub record Codec : Type 0 where
  pub encode : String → String
  pub decode : String → Option String
  pub loads : String → Option Payload
  pub header_json : String
  pub payload_json : String → String

-- `"=" * (-len(seg) % 4)`.
abbrev pub padding : ℕ → String
padding zero = ""
padding (suc zero) = "==="
padding (suc (suc zero)) = "=="
padding _ = "="

abbrev pub pad : String → String
pad seg = seg <> padding (size seg % 4)

-- `_b64url_decode`.
abbrev pub b64url_decode : Codec → String → Option String
b64url_decode k seg = k.decode (pad seg)

-- `issue_token`.
unfoldable pub issue_token : Codec → String → String
issue_token k sub =
    k.encode k.header_json <> "." <> k.encode (k.payload_json sub) <> "." <> "insecuresignature"

-- `c.lower()` of an ASCII character; no other character has an ASCII letter of "bearer" as lower case.
abbrev lower_code : ℕ → ℕ
lower_code n = if leb 65 n && leb n 90 then n + 32 else n

-- `s.lower().startswith(t)`.
abbrev pub starts_lower : String → String → Bool
starts_lower s String.[] = true
starts_lower String.[] (String.◌∷◌ d t) = false
starts_lower (String.◌∷◌ c s) (String.◌∷◌ d t) =
    eqb (lower_code (code c)) (code d) && starts_lower s t

-- `parts[1]`; `none` is the `IndexError`.
abbrev pub second_part : List String → Option String
second_part [] = none
second_part (_ ∷ []) = none
second_part (_ ∷ p ∷ _) = some p

abbrev pub loads_of : Codec → Option String → Option Payload
loads_of k none = none
loads_of k (some raw) = k.loads raw

abbrev pub payload_of : Codec → Option String → Option Payload
payload_of k none = none
payload_of k (some part) = loads_of k (b64url_decode k part)

-- `None` for an exception, and for a JSON null.
abbrev pub not_null : Option Payload → Option Payload
not_null none = none
not_null (some null_value) = none
not_null (some p) = some p

-- The token of an `Authorization` header, behind the first blank.
abbrev pub decode_token : Codec → String → Option Payload
decode_token k token = not_null (payload_of k (second_part (split_on b'.' token)))

-- `decode_unverified`.
unfoldable pub decode_unverified : Codec → Option String → Option Payload
decode_unverified k none = none
decode_unverified k (some authorization) =
    if starts_lower authorization "bearer " then decode_token k (skip 7 authorization) else none

-- `_require_user`; the outer `none` is the `AttributeError` of `claims.get`.
abbrev sub_of : Option Payload → Option (Option String)
sub_of none = some none
sub_of (some (object sub username)) = some sub
sub_of (some null_value) = some none
sub_of (some (other true)) = none
sub_of (some (other false)) = some none

unfoldable pub require_user : Codec → Option String → Option (Option String)
require_user k authorization = sub_of (decode_unverified k authorization)
