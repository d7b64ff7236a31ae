-- ===== src/Shell/Paths.antt =====
-- Python's `posixpath` and the text methods, as the fake shell uses them.
use mathlib.Core.List.{reverse}
use honeypot_m1spro.Base.{
  split_on, ℕ, code, String, Bool, true, false, not, ◌&&◌, ◌||◌, List, [], ◌∷◌, ◌==◌, leb, eqb,
  if◌then◌else◌, ◌<>◌, starts_with, join, cons_head,
}

-- `str.isspace` of one code point.
unfoldable pub is_space : ℕ → Bool
is_space n =
    (leb 9 n && leb n 13)
    || (leb 28 n && leb n 32)
    || eqb n 0x85
    || eqb n 0xa0
    || eqb n 0x1680
    || (leb 0x2000 n && leb n 0x200a)
    || eqb n 0x2028
    || eqb n 0x2029
    || eqb n 0x202f
    || eqb n 0x205f
    || eqb n 0x3000

-- `s.lstrip()`, `s.rstrip()`, `s.strip()`.
unfoldable pub lstrip : String → String
lstrip String.[] = ""
lstrip (String.◌∷◌ c s) = let rest = lstrip s in if is_space (code c) then rest else String.◌∷◌ c s

unfoldable pub rstrip : String → String
rstrip String.[] = ""
rstrip (String.◌∷◌ c s) =
    let rest = rstrip s in if rest == "" && is_space (code c) then "" else String.◌∷◌ c rest

unfoldable pub strip : String → String
unfolding lstrip rstrip
strip s = rstrip (lstrip s)

-- `s.split("/")`.
abbrev pub split_slash : String → List String
split_slash = split_on b'/'

pub starts_word : String → Bool
starts_word String.[] = false
starts_word (String.◌∷◌ d _) = not (is_space (code d))

-- `s.split()`: the words between runs of white space.
unfoldable pub words : String → List String
unfolding is_space starts_word
words String.[] = []
words (String.◌∷◌ c s) =
    let rest = words s in
    if is_space (code c)
    then rest
    else if starts_word s
    then cons_head c rest
    else String.◌∷◌ c "" ∷ rest

-- The slash that `posixpath.join` adds.
ends_with_slash : String → Bool
ends_with_slash String.[] = false
ends_with_slash (String.◌∷◌ c String.[]) = eqb (code c) b'/'
ends_with_slash (String.◌∷◌ c (String.◌∷◌ d s)) = ends_with_slash (String.◌∷◌ d s)

-- `posixpath.join(a, b)`.
unfoldable pub join_path : String → String → String
unfolding ends_with_slash
join_path a b =
    if starts_with b "/" then b else if a == "" || ends_with_slash a then a <> b else a <> "/" <> b

-- `posixpath.basename`: what follows the last slash.
last_part : List String → String
last_part [] = ""
last_part (p ∷ []) = p
last_part (p ∷ q ∷ ps) = last_part (q ∷ ps)

unfoldable pub basename : String → String
unfolding last_part split_on
basename p = last_part (split_slash p)

-- The slashes that `normpath` keeps in front: POSIX gives two a meaning of their own.
unfoldable pub initial_slashes : String → String
initial_slashes p =
    if not (starts_with p "/")
    then ""
    else if starts_with p "//" && not (starts_with p "///")
    then "//"
    else "/"

-- One component in the loop of `normpath`; `kept` has the last kept component first.
top_is_dotdot : List String → Bool
top_is_dotdot [] = false
top_is_dotdot (p ∷ _) = p == ".."

abbrev pub is_empty : List String → Bool
is_empty [] = true
is_empty (_ ∷ _) = false

abbrev pop : List String → List String
pop [] = []
pop (_ ∷ ps) = ps

unfoldable pub collapse_one : Bool → List String → String → List String
unfolding top_is_dotdot
collapse_one rooted kept comp =
    if comp == "" || comp == "."
    then kept
    else if not (comp == "..") || (not rooted && is_empty kept) || top_is_dotdot kept
    then comp ∷ kept
    else pop kept

unfoldable pub collapse : Bool → List String → List String → List String
unfolding collapse_one
collapse rooted kept [] = reverse kept
collapse rooted kept (comp ∷ comps) = collapse rooted (collapse_one rooted kept comp) comps

-- `posixpath.normpath`.
unfoldable pub normpath : String → String
normpath p =
    let path = initial_slashes p <> join "/" (collapse (starts_with p "/") [] (split_slash p)) in
    if p == "" || path == "" then "." else path
