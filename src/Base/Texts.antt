-- ===== src/Base/Texts.antt =====
-- A Python `str` as the list of its code points, with the methods of `str` that the linter calls.
use Prim.Native.Nat.{ℕ, zero, suc, ◌+◌, ◌-◌, ◌/◌, ◌%◌}
use Prim.Native.Char.{code}
use Prim.Native.String.{String}
use mathlib.Core.Bool.{Bool, true, false, ◌&&◌, ◌||◌}
use mathlib.Core.Option.{Option, none, some}
use mathlib.Core.List.{List, [], ◌∷◌, ◌++◌, reverse, map}
use dmanix.Base.Tests.{leb, ◌==◌, if◌then◌else◌, is_some, map_option}
use dmanix.Base.Lists.{length}

abbrev pub Text : Type 0
Text = List ℕ

-- The code points of a literal.
abbrev pub codes : String → Text
codes String.[] = []
codes (String.◌∷◌ c s) = code c ∷ codes s

-- s == t
unfoldable pub text_eq : Text → Text → Bool
text_eq [] [] = true
text_eq [] (_ ∷ _) = false
text_eq (_ ∷ _) [] = false
text_eq (a ∷ s) (b ∷ t) = a == b && text_eq s t

-- The text after the prefix `p`.
unfoldable pub after_prefix : Text → Text → Option Text
after_prefix s [] = some s
after_prefix [] (_ ∷ _) = none
after_prefix (c ∷ s) (d ∷ p) = let rest = after_prefix s p in if c == d then rest else none

-- s.startswith(p)
unfoldable pub starts_with : Text → Text → Bool
unfolding after_prefix
starts_with s p = is_some (after_prefix s p)

-- The text before the suffix `p`.
unfoldable pub before_suffix : Text → Text → Option Text
unfolding after_prefix
before_suffix s p = map_option reverse (after_prefix (reverse s) (reverse p))

-- s.endswith(p)
unfoldable pub ends_with : Text → Text → Bool
unfolding before_suffix
ends_with s p = is_some (before_suffix s p)

-- s.find(p), with `none` for -1
unfoldable pub find : Text → Text → Option ℕ
unfolding starts_with
find [] p = if starts_with [] p then some 0 else none
find (c ∷ s) p =
    let rest = find s p in
    if starts_with (c ∷ s) p then some 0 else elim rest [ none ↦ none | some i ↦ some (suc i) ]

-- c in s, for one character
unfoldable pub mem_char : ℕ → Text → Bool
mem_char c [] = false
mem_char c (d ∷ s) = c == d || mem_char c s

-- s.count(c), for one character
unfoldable pub count_char : ℕ → Text → ℕ
count_char c [] = 0
count_char c (d ∷ s) = (if d == c then 1 else 0) + count_char c s

-- `\s` in a pattern compiled without the UNICODE flag.
unfoldable pub is_ascii_space : ℕ → Bool
is_ascii_space c = c == 32 || leb 9 c && leb c 13

-- u.isspace() of a one-character `unicode`: what `strip`, `split` and `isspace` take for white space.
unfoldable pub is_space : ℕ → Bool
unfolding is_ascii_space mem_char
is_space c =
    is_ascii_space c
    || leb 28 c && leb c 31
    || leb 8192 c && leb c 8202
    || mem_char c (133 ∷ 160 ∷ 5760 ∷ 6158 ∷ 8232 ∷ 8233 ∷ 8239 ∷ 8287 ∷ 12288 ∷ [])

-- s.lstrip()
unfoldable pub lstrip : Text → Text
unfolding is_space
lstrip [] = []
lstrip (c ∷ s) = let rest = lstrip s in if is_space c then rest else c ∷ s

-- s.rstrip()
unfoldable pub rstrip : Text → Text
unfolding lstrip
rstrip s = reverse (lstrip (reverse s))

-- s.strip()
unfoldable pub strip : Text → Text
unfolding lstrip rstrip
strip s = rstrip (lstrip s)

-- A character in front of the first part.
abbrev pub cons_part : ℕ → List Text → List Text
cons_part d [] = (d ∷ []) ∷ []
cons_part d (p ∷ ps) = (d ∷ p) ∷ ps

-- s.split(c), for one character: always at least one part
unfoldable pub split_char : ℕ → Text → List Text
split_char c [] = [] ∷ []
split_char c (d ∷ s) =
    let parts = split_char c s in if d == c then [] ∷ parts else cons_part d parts

-- s.replace(old, new) for a non-empty `old`: `skip` counts the characters of a match still to drop
unfoldable pub replace_from : ℕ → Text → Text → Text → Text
unfolding starts_with
replace_from skip old new [] = []
replace_from (suc k) old new (c ∷ s) = replace_from k old new s
replace_from zero old new (c ∷ s) =
    let hit = new ++ replace_from (length old - 1) old new s in
    let miss = c ∷ replace_from 0 old new s in if starts_with (c ∷ s) old then hit else miss

unfoldable pub replace : Text → Text → Text → Text
unfolding replace_from
replace old new s = replace_from 0 old new s

-- s.count(p) for a non-empty `p`, without overlaps
unfoldable pub count_from : ℕ → Text → Text → ℕ
unfolding starts_with
count_from skip p [] = 0
count_from (suc k) p (c ∷ s) = count_from k p s
count_from zero p (c ∷ s) =
    let hit = suc (count_from (length p - 1) p s) in
    let miss = count_from 0 p s in if starts_with (c ∷ s) p then hit else miss

unfoldable pub count : Text → Text → ℕ
unfolding count_from
count p s = count_from 0 p s

-- s.lower() and s.upper(), on ASCII letters
unfoldable pub to_lower : ℕ → ℕ
to_lower c = if leb b'A' c && leb c b'Z' then c + 32 else c

unfoldable pub lower : Text → Text
unfolding to_lower
lower = map to_lower

unfoldable pub to_upper : ℕ → ℕ
to_upper c = if leb b'a' c && leb c b'z' then c - 32 else c

unfoldable pub upper : Text → Text
unfolding to_upper
upper = map to_upper

-- a ≤ b for texts: code points from the left, a prefix first
unfoldable pub text_le : Text → Text → Bool
text_le [] t = true
text_le (a ∷ s) [] = false
text_le (a ∷ s) (b ∷ t) = let rest = text_le s t in if a == b then rest else leb a b

-- sep.join(parts)
unfoldable pub join : Text → List Text → Text
join sep [] = []
join sep (p ∷ []) = p
join sep (p ∷ q ∷ ps) = p ++ sep ++ join sep (q ∷ ps)

-- %d of a non-negative number
unfoldable pub decimal_digits : ℕ → ℕ → Text → Text
decimal_digits zero n acc = acc
decimal_digits (suc fuel) n acc =
    let rest = decimal_digits fuel (n / 10) ((48 + n % 10) ∷ acc) in
    if leb n 9 then (48 + n) ∷ acc else rest

unfoldable pub decimal : ℕ → Text
unfolding decimal_digits
decimal n = decimal_digits (suc n) n []

-- not s
abbrev pub is_nil_text : Text → Bool
is_nil_text [] = true
is_nil_text (_ ∷ _) = false

-- t in ts
unfoldable pub mem_text : Text → List Text → Bool
unfolding text_eq
mem_text t [] = false
mem_text t (u ∷ us) = text_eq t u || mem_text t us
