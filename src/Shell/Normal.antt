-- ===== src/Shell/Normal.antt =====
-- The paths that `_resolve` hands to the fake filesystem are normal.
use mathlib.Core.List.{reverse, reverse_aux, append_assoc, append-nil, reverse-cons}
use text.Mathlib.TextLemmas.{nil-append, cons-append, cons-ne-nil}
use honeypot_m1spro.Base.{
  split_on, Char, code, String, ◌≡◌, refl, sym, ◌∙◌, ◌≢◌, ◌⊎◌, inl, inr, true, false, ◌||◌, List,
  [], ◌∷◌, ◌++◌, arith, ◌==◌, eq_iff, eqb, if◌then◌else◌, Bool-cases, All, ◌<>◌, skip, starts_with,
  join, ==-false, cons_head,
}
use honeypot_m1spro.Shell.{resolve}
use honeypot_m1spro.Shell.Replies.{home}
use honeypot_m1spro.Shell.Paths.{
  split_slash, join_path, initial_slashes, collapse_one, collapse, normpath,
}

abbrev NoSlash : String → Type 0
NoSlash String.[] = Unit
NoSlash (String.◌∷◌ c s) = (code c ≢ b'/') × NoSlash s

-- A component of a normal path from the root.
abbrev IsName : String → Type 0
IsName p = (p ≢ "") × (p ≢ ".") × (p ≢ "..") × NoSlash p

NoSlash-cons_head :
    (c : Char) (ps : List String) → code c ≢ b'/' → All NoSlash ps → All NoSlash (cons_head c ps)
NoSlash-cons_head c [] h k = ((h, tt), tt)
NoSlash-cons_head c (p ∷ ps) h (q, k) = ((h, q), k)

split_slash-NoSlash : (s : String) → All NoSlash (split_slash s)
unfolding split_on
split_slash-NoSlash String.[] = (tt, tt)
split_slash-NoSlash (String.◌∷◌ c s) =
    let ih = split_slash-NoSlash s in
    elim (Bool-cases (eqb (code c) b'/')) [
      | inl slash ↦ rw slash (tt, ih)
      | inr other ↦ rw other (NoSlash-cons_head c (split_slash s) (ground arith) ih)
    ]

collapse_one-IsName :
    (kept : List String) (comp : String)
    → All IsName kept
    → NoSlash comp
    → All IsName (collapse_one true kept comp)
unfolding collapse_one
collapse_one-IsName [] comp h k = ground (arith, eq_iff comp "", eq_iff comp ".", eq_iff comp "..")
collapse_one-IsName (p ∷ kept) comp h k =
    ground (arith, eq_iff comp "", eq_iff comp ".", eq_iff comp "..", eq_iff p "..")

All-reverse_aux :
    (xs ys : List String) → All IsName xs → All IsName ys → All IsName (reverse_aux xs ys)
All-reverse_aux [] ys h k = k
All-reverse_aux (x ∷ xs) ys (p, h) k = All-reverse_aux xs (x ∷ ys) h (p, k)

collapse-IsName :
    (kept comps : List String)
    → All IsName kept
    → All NoSlash comps
    → All IsName (collapse true kept comps)
unfolding collapse
collapse-IsName kept [] h k = All-reverse_aux kept [] h tt
collapse-IsName kept (comp ∷ comps) h (c, k) =
    collapse-IsName (collapse_one true kept comp) comps (collapse_one-IsName kept comp h c) k

collapse_one-cons :
    (kept : List String) (comp : String) → IsName comp → collapse_one true kept comp ≡ comp ∷ kept
unfolding collapse_one
collapse_one-cons kept comp h = ground (arith, eq_iff comp "", eq_iff comp ".", eq_iff comp "..")

collapse_of_IsName :
    (kept comps : List String) → All IsName comps → collapse true kept comps ≡ reverse kept ++ comps
unfolding collapse
collapse_of_IsName kept [] h = sym (append-nil _)
collapse_of_IsName kept (comp ∷ comps) (c, h) =
    rw (collapse_one-cons kept comp c)
      (collapse_of_IsName (comp ∷ kept) comps h ∙ simp (reverse-cons, append_assoc))

-- Splitting undoes joining.
split_slash-append : (p s : String) → NoSlash p → split_slash (p <> "/" <> s) ≡ p ∷ split_slash s
unfolding split_on
split_slash-append String.[] s h = rw (nil-append, cons-append, nil-append) refl
split_slash-append (String.◌∷◌ c p) s (h, k) =
    rw (cons-append, split_slash-append p s k) (ground arith)

split_slash-name : (p : String) → NoSlash p → split_slash p ≡ p ∷ []
unfolding split_on
split_slash-name String.[] h = refl
split_slash-name (String.◌∷◌ c p) (h, k) = rw (split_slash-name p k) (ground arith)

split_slash-join :
    (p : String) (ps : List String) → All IsName (p ∷ ps) → split_slash (join "/" (p ∷ ps)) ≡ p ∷ ps
split_slash-join p [] ((_, _, _, k), _) = split_slash-name p k
split_slash-join p (q ∷ ps) ((_, _, _, k), h) =
    rw (split_slash-append p (join "/" (q ∷ ps)) k, split_slash-join q ps h) refl

collapse-split_slash-join :
    (comps : List String)
    → All IsName comps
    → collapse true [] (split_slash (join "/" comps)) ≡ comps
collapse-split_slash-join [] h = unfold collapse split_on in refl
collapse-split_slash-join (p ∷ ps) h =
    rw (split_slash-join p ps h) (collapse_of_IsName [] (p ∷ ps) h)

-- A joined path of names does not begin with a slash.
starts_with-join :
    (comps : List String) → All IsName comps → starts_with (join "/" comps) "/" ≡ false
starts_with-join [] h = refl
starts_with-join (String.[] ∷ ps) ((p, _, _, _), h) = absurd (p refl)
starts_with-join (String.◌∷◌ c s ∷ []) ((_, _, _, (k, _)), h) = ground arith
starts_with-join (String.◌∷◌ c s ∷ q ∷ ps) ((_, _, _, (k, _)), h) = rw cons-append (ground arith)

starts_with-append_left :
    (s t : String) → starts_with s "/" ≡ true → starts_with (s <> t) "/" ≡ true
starts_with-append_left String.[] t h = cc
starts_with-append_left (String.◌∷◌ c s) t h = rw cons-append h

-- A normal path: one or two slashes, then names that are joined by slashes.
abbrev pub IsNormal : String → Type 0
IsNormal p =
    (comps : List String) × All IsName comps
    × ((p ≡ "/" <> join "/" comps) ⊎ (p ≡ "//" <> join "/" comps))

normpath_rooted :
    (p slashes : String) (comps : List String)
    → starts_with p "/" ≡ true
    → initial_slashes p ≡ slashes
    → collapse true [] (split_slash p) ≡ comps
    → slashes <> join "/" comps ≢ ""
    → normpath p ≡ slashes <> join "/" comps
unfolding normpath
normpath_rooted String.[] slashes comps rooted _ _ _ = cc
normpath_rooted (String.◌∷◌ c s) slashes comps rooted front rest filled =
    rw (rooted, front, rest)
      (rw (==-false (String.◌∷◌ c s) "" (cons-ne-nil c s), ==-false _ "" filled) refl)

slash-append : (s : String) → "/" <> s ≡ String.◌∷◌ "/" s
slash-append s = rw (cons-append, nil-append) refl

slashes-append : (s : String) → "//" <> s ≡ String.◌∷◌ "/" (String.◌∷◌ "/" s)
slashes-append s = rw (cons-append, cons-append, nil-append) refl

slash-ne-nil : (s : String) → "/" <> s ≢ ""
slash-ne-nil s e = cc (slash-append s)

slashes-ne-nil : (s : String) → "//" <> s ≢ ""
slashes-ne-nil s e = cc (slashes-append s)

module _ (comps : List String) (h : All IsName comps) where
  normpath_one : normpath ("/" <> join "/" comps) ≡ "/" <> join "/" comps
  unfolding initial_slashes
  normpath_one =
      normpath_rooted _ "/" comps (rw (slash-append (join "/" comps)) refl)
        (rw (slash-append (join "/" comps), starts_with-join comps h) refl)
        (rw (slash-append (join "/" comps))
          (unfold split_on collapse in collapse-split_slash-join comps h))
        (slash-ne-nil _)

  normpath_two : normpath ("//" <> join "/" comps) ≡ "//" <> join "/" comps
  unfolding initial_slashes
  normpath_two =
      normpath_rooted _ "//" comps (rw (slashes-append (join "/" comps)) refl)
        (rw (slashes-append (join "/" comps), starts_with-join comps h) refl)
        (rw (slashes-append (join "/" comps))
          (unfold split_on collapse in collapse-split_slash-join comps h))
        (slashes-ne-nil _)

-- A normal path is left as it is.
normpath_of_IsNormal : (p : String) → IsNormal p → normpath p ≡ p
normpath_of_IsNormal p (comps, names, inl e) = rw e (normpath_one comps names)
normpath_of_IsNormal p (comps, names, inr e) = rw e (normpath_two comps names)

initial_slashes-cases :
    (p : String) → starts_with p "/" ≡ true → (initial_slashes p ≡ "/") ⊎ (initial_slashes p ≡ "//")
unfolding initial_slashes
initial_slashes-cases p h = ground arith

normpath-IsNormal : (p : String) → starts_with p "/" ≡ true → IsNormal (normpath p)
normpath-IsNormal p rooted =
    let comps : List String = collapse true [] (split_slash p) in
    (
      comps,
      collapse-IsName [] (split_slash p) tt (split_slash-NoSlash p),
      elim (initial_slashes-cases p rooted) [
        | inl one ↦ inl (normpath_rooted p "/" comps rooted one refl (slash-ne-nil _))
        | inr two ↦ inr (normpath_rooted p "//" comps rooted two refl (slashes-ne-nil _))
      ],
    )

starts_with-join_path :
    (a b : String) → starts_with a "/" ≡ true → starts_with (join_path a b) "/" ≡ true
unfolding join_path
starts_with-join_path a b h =
    ground (arith, starts_with-append_left a b h, starts_with-append_left a ("/" <> b) h)

-- From a directory whose path begins with a slash, `_resolve` yields a normal path, whatever the
-- target: one or two slashes, then components none of which is empty, "." or ".." or holds a
-- slash. Normalising it again changes nothing.
pub resolve-IsNormal :
    (cwd target : String)
    → starts_with cwd "/" ≡ true
    → IsNormal (resolve cwd target) × (normpath (resolve cwd target) ≡ resolve cwd target)
unfolding resolve
resolve-IsNormal cwd target h =
    let expanded : String =
      if target == "~" || starts_with target "~/" then home <> skip 1 target else target in
    let absolute : String = if starts_with expanded "/" then expanded else join_path cwd expanded in
    let rooted : starts_with absolute "/" ≡ true =
      ground (arith, starts_with-join_path cwd expanded h) in
    let n = normpath-IsNormal absolute rooted in (n, normpath_of_IsNormal (normpath absolute) n)
