-- ===== src/Paths.antt =====
-- The functions of `os.path` that the linter calls on names (POSIX).
use mathlib.Core.Bool.{not}
use dmanix.Base.{
  ℕ, Bool, false, ◌&&◌, ◌||◌, List, [], ◌∷◌, ◌++◌, reverse, Text, codes, text_eq, split_char, join,
  starts_with, is_nil_text, ◌==◌, if◌then◌else◌,
}

-- The longest front part without the character, and the rest.
unfoldable pub span_without : ℕ → Text → Text × Text
span_without c [] = ([], [])
span_without c (d ∷ s) =
    let (front, rest) = span_without c s in if d == c then ([], d ∷ s) else (d ∷ front, rest)

-- p[:p.rfind(c) + 1] and p[p.rfind(c) + 1:]
unfoldable pub split_after_last : ℕ → Text → Text × Text
unfolding span_without
split_after_last c p =
    let (back, front) = span_without c (reverse p) in (reverse front, reverse back)

-- p.lstrip(c), for one character
unfoldable pub lstrip_char : ℕ → Text → Text
lstrip_char c [] = []
lstrip_char c (d ∷ s) = let rest = lstrip_char c s in if d == c then rest else d ∷ s

unfoldable pub rstrip_char : ℕ → Text → Text
unfolding lstrip_char
rstrip_char c p = reverse (lstrip_char c (reverse p))

-- os.path.split(p): a head of slashes only is kept
unfoldable pub split_path : Text → Text × Text
unfolding split_after_last rstrip_char
split_path p =
    let (head, tail) = split_after_last b'/' p in
    let bare = rstrip_char b'/' head in (if is_nil_text bare then head else bare, tail)

unfoldable pub dirname : Text → Text
unfolding split_path
dirname p = (split_path p).0

-- Is a character other than a dot in the text?
unfoldable pub has_non_dot : Text → Bool
has_non_dot [] = false
has_non_dot (c ∷ s) = not (c == b'.') || has_non_dot s

-- s[:-1]
unfoldable pub drop_last : Text → Text
drop_last [] = []
drop_last (c ∷ []) = []
drop_last (c ∷ d ∷ s) = c ∷ drop_last (d ∷ s)

-- os.path.splitext(p): the dots that lead the file name do not count
unfoldable pub splitext : Text → Text × Text
unfolding split_after_last has_non_dot drop_last
splitext p =
    let (head, name) = split_after_last b'/' p in
    let (dotted, ext) = split_after_last b'.' name in
    let stem = drop_last dotted in if has_non_dot stem then (head ++ stem, b'.' ∷ ext) else (p, [])

-- os.path.join(a, b) for a `b` without a leading slash
unfoldable pub join_path : Text → Text → Text
unfolding text_eq
join_path a b =
    let (before, last) = split_after_last b'/' a in
    if is_nil_text last then a ++ b else a ++ b'/' ∷ b

-- The components of os.path.normpath, from the left; `kept` is in reverse.
unfoldable pub norm_step : Bool → Text → List Text → List Text
unfolding text_eq
norm_step rooted comp [] =
    if is_nil_text comp || text_eq comp (codes ".") || text_eq comp (codes "..") && rooted
    then []
    else comp ∷ []
norm_step rooted comp (k ∷ kept) =
    if is_nil_text comp || text_eq comp (codes ".")
    then k ∷ kept
    else if text_eq comp (codes "..") && not (text_eq k (codes ".."))
    then kept
    else comp ∷ k ∷ kept

unfoldable pub norm_components : Bool → List Text → List Text → List Text
unfolding norm_step
norm_components rooted [] kept = reverse kept
norm_components rooted (c ∷ cs) kept = norm_components rooted cs (norm_step rooted c kept)

abbrev slashes : Text → Text
slashes p =
    if starts_with p (codes "//") && not (starts_with p (codes "///"))
    then codes "//"
    else if starts_with p (codes "/")
    then codes "/"
    else []

abbrev or_dot : Text → Text
or_dot [] = codes "."
or_dot (c ∷ s) = c ∷ s

unfoldable pub normpath : Text → Text
unfolding norm_components split_char join starts_with
normpath p = or_dot (
    slashes p
    ++ join (codes "/") (norm_components (not (is_nil_text (slashes p))) (split_char b'/' p) []))
