-- ===== src/Validators/Urls.antt =====
-- secure_app/validators.py: `validate_url`. `urlparse` and `ipaddress` are parameters.
use honeypot_m1spro.Base.{
  ◌≤◌, size, all_chars, String, ◌≡◌, refl, ◌⊎◌, inl, inr, Bool, true, false, not, ◌||◌, Option,
  none, some, List, arith, ◌==◌, if◌then◌else◌, Bool-cases, Option-cases, any,
}
use honeypot_m1spro.Validators.{is_safe_hostname}
use honeypot_m1spro.Validators.Hosts.{is_host_char, is_safe_hostname-chars}

-- What `urlparse` reads of a URL.
pub record ParsedUrl : Type 0 where
  pub scheme : String
  pub hostname : Option String

-- The properties of an address.
pub record Address : Type 0 where
  pub is_private : Bool
  pub is_loopback : Bool
  pub is_link_local : Bool
  pub is_reserved : Bool
  pub is_multicast : Bool

-- `urlparse` and `ip_address`, where `none` is the `ValueError`.
pub record UrlTools : Type 0 where
  pub urlparse : String → Option ParsedUrl
  pub ip_address : String → Option Address

abbrev pub is_internal : Address → Bool
is_internal a = a.is_private || a.is_loopback || a.is_link_local || a.is_reserved || a.is_multicast

abbrev host_allowed : UrlTools → String → Bool
host_allowed t host = elim (t.ip_address host) [
  | none ↦ is_safe_hostname host
  | some a ↦ not (is_internal a)
]

abbrev host_of_url : UrlTools → Option String → Bool
host_of_url t none = false
host_of_url t (some host) = if host == "" then false else host_allowed t host

abbrev parsed_allowed : UrlTools → List String → Option ParsedUrl → Bool
parsed_allowed t schemes none = false
parsed_allowed t schemes (some url) =
    if any (λ s. s == url.scheme) schemes then host_of_url t url.hostname else false

-- `validate_url` on a text.
unfoldable pub validate_url : UrlTools → List String → String → Bool
validate_url t allowed_schemes url = parsed_allowed t allowed_schemes (t.urlparse url)

-- None of the five classes of addresses that are not public.
abbrev IsPublic : Address → Type 0
IsPublic a =
    (a.is_private ≡ false)
    × (a.is_loopback ≡ false)
    × (a.is_link_local ≡ false)
    × (a.is_reserved ≡ false)
    × (a.is_multicast ≡ false)

-- Where an accepted URL points.
pub record IsPublicTarget (t : UrlTools) (schemes : List String) (url : ParsedUrl) : Type 0 where
  pub scheme_allowed : any (λ s. s == url.scheme) schemes ≡ true
  pub target :
      (host : String) × (url.hostname ≡ some host)
      × (((a : Address) × (t.ip_address host ≡ some a) × IsPublic a)
          ⊎ ((t.ip_address host ≡ none) × (size host ≤ 253) × (all_chars is_host_char host ≡ true)))

host_allowed_sound :
    (t : UrlTools) (host : String)
    → host_allowed t host ≡ true
    → ((a : Address) × (t.ip_address host ≡ some a) × IsPublic a)
      ⊎ ((t.ip_address host ≡ none) × (size host ≤ 253) × (all_chars is_host_char host ≡ true))
host_allowed_sound t host h = elim (Option-cases (t.ip_address host)) [
  | inl e ↦
      let (short, chars) = is_safe_hostname-chars host (rw (e, host_allowed) at h) in
      inr (e, short, chars)
  | inr (a, e) ↦ inl (a, e, outside a (rw (e, host_allowed) at h))
]
  where
    outside : (a : Address) → not (is_internal a) ≡ true → IsPublic a
    outside a k = (ground arith, ground arith, ground arith, ground arith, ground arith)

-- An accepted URL has an allowed scheme and a host; a host that is a literal address is not private,
-- loopback, link-local, reserved or multicast, and any other host has at most 253 characters, which are
-- ASCII letters, digits, dashes, dots and line feeds.
pub validate_url_sound :
    (t : UrlTools) (schemes : List String) (text : String)
    → validate_url t schemes text ≡ true
    → (url : ParsedUrl) × (t.urlparse text ≡ some url) × IsPublicTarget t schemes url
unfolding validate_url
validate_url_sound t schemes text h = elim (Option-cases (t.urlparse text)) [
  | inl e ↦ absurd (never (rw e at h))
  | inr (url, e) ↦ (url, e, parsed url (rw e at h))
]
  where
    never : false ≡ true → ⊥
    never k = cc

    parsed :
        (url : ParsedUrl)
        → parsed_allowed t schemes (some url) ≡ true
        → IsPublicTarget t schemes url
    parsed url k = elim (Bool-cases (any (λ s. s == url.scheme) schemes)) [
      | inr bad ↦ absurd (never (rw bad at k))
      | inl good ↦ record { scheme_allowed = good; target = named url.hostname (rw good at k) }
    ]
      where
        named :
            (name : Option String)
            → host_of_url t name ≡ true
            → (host : String) × (name ≡ some host)
              × (((a : Address) × (t.ip_address host ≡ some a) × IsPublic a)
                  ⊎ ((t.ip_address host ≡ none)
                      × (size host ≤ 253)
                      × (all_chars is_host_char host ≡ true)))
        named none q = absurd (never q)
        named (some host) q = elim (Bool-cases (host == "")) [
          | inl empty ↦ absurd (never (rw empty at q))
          | inr there ↦ (host, refl, host_allowed_sound t host (rw there at q))
        ]
