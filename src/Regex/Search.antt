-- ===== src/Regex/Search.antt =====
-- `match`, `search`, `sub` and `finditer` over the matcher.
use dmanix.Base.{
  ℕ, zero, suc, ◌-◌, Bool, true, false, Option, none, some, List, [], ◌∷◌, ◌++◌, Text, length, ◌==◌,
  if◌then◌else◌,
}
use dmanix.Regex.{Regex, Cursor, cursor, between, results}

-- A match object: the cursors at its two ends.
pub record Found : Type 0 where
  pub from : Cursor
  pub to : Cursor

abbrev pub first_of_all : Cursor → List Cursor → Option Found
first_of_all c [] = none
first_of_all c (d ∷ _) = some (record { from = c; to = d })

unfoldable pub match_at : Regex → Cursor → Option Found
unfolding results
match_at r c = first_of_all c (results r c)

-- pattern.match(s)
unfoldable pub match : Regex → Text → Option Found
unfolding match_at
match r s = match_at r (cursor s)

-- The search goes on one character further, until the text has ended.
unfoldable pub search_from : Regex → Text → Text → Option Found
unfolding match_at
search_from r before [] = match_at r (record { before = before; after = []; groups = [] })
search_from r before (x ∷ s) =
    let rest = search_from r (x ∷ before) s in
    elim (match_at r (record { before = before; after = x ∷ s; groups = [] })) [
      | none ↦ rest
      | some m ↦ some m
    ]

-- pattern.search(s)
unfoldable pub search_in : Regex → Text → Option Found
unfolding search_from
search_in r s = search_from r [] s

abbrev pub is_found : Option Found → Bool
is_found none = false
is_found (some _) = true

-- `if Match(pattern, s)` and `if Search(pattern, s)`
unfoldable pub matches : Regex → Text → Bool
unfolding match
matches r s = is_found (match r s)

unfoldable pub occurs : Regex → Text → Bool
unfolding search_in
occurs r s = is_found (search_in r s)

abbrev pub lookup_group : ℕ → List (ℕ × Text) → Option Text
lookup_group n [] = none
lookup_group n ((k, t) ∷ gs) = let rest = lookup_group n gs in if k == n then some t else rest

-- m.group(n); `none` is Python's None
unfoldable pub group_of : Found → ℕ → Option Text
group_of m n = lookup_group n m.to.groups

abbrev pub text_or_nil : Option Text → Text
text_or_nil none = []
text_or_nil (some t) = t

-- m.group(n) of a group that takes part in every match
unfoldable pub group_text : Found → ℕ → Text
unfolding group_of
group_text m n = text_or_nil (group_of m n)

-- m.group(0), m.start(), m.end()
unfoldable pub whole : Found → Text
whole m = between m.from m.to

unfoldable pub start_of : Found → ℕ
start_of m = length m.from.before

unfoldable pub end_of : Found → ℕ
end_of m = length m.to.before

-- pattern.finditer(s), for a pattern that never matches the empty text: after a match the scan goes
-- on at its end. `skip` counts the characters of the last match still to pass.
unfoldable pub find_all_from : Regex → ℕ → Text → Text → List Found
unfolding match_at
find_all_from r skip before [] = []
find_all_from r (suc k) before (x ∷ s) = find_all_from r k (x ∷ before) s
find_all_from r zero before (x ∷ s) =
    let miss = find_all_from r 0 (x ∷ before) s in
    elim (match_at r (record { before = before; after = x ∷ s; groups = [] })) [
      | none ↦ miss
      | some m ↦ m ∷ find_all_from r (length (between m.from m.to) - 1) (x ∷ before) s
    ]

unfoldable pub find_all : Regex → Text → List Found
unfolding find_all_from
find_all r s = find_all_from r 0 [] s

-- pattern.sub(new, s), for a pattern that never matches the empty text
unfoldable pub sub_from : Regex → Text → ℕ → Text → Text → Text
unfolding match_at
sub_from r new skip before [] = []
sub_from r new (suc k) before (x ∷ s) = sub_from r new k (x ∷ before) s
sub_from r new zero before (x ∷ s) =
    let miss = x ∷ sub_from r new 0 (x ∷ before) s in
    elim (match_at r (record { before = before; after = x ∷ s; groups = [] })) [
      | none ↦ miss
      | some m ↦ new ++ sub_from r new (length (between m.from m.to) - 1) (x ∷ before) s
    ]

unfoldable pub sub : Regex → Text → Text → Text
unfolding sub_from
sub r new s = sub_from r new 0 [] s
