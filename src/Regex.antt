-- ===== src/Regex.antt =====
-- Python's `re` as the linter uses it: patterns as data, and the backtracking matcher as the list of
-- all ways to match, the preferred one first. A pattern under `*` never matches the empty text
-- here, so an iteration that makes no progress is not tried.
pub mod Chars
pub mod Relation
pub mod Rounds
pub mod Decides
mod Examples
pub mod Search
pub mod Bounds
pub mod GroupFirst
pub mod FirstChar
pub mod FirstOf
pub mod Means
use mathlib.Core.List.{flat_map}
use mathlib.Core.Bool.{xor}
use dmanix.Base.{
  ℕ, zero, suc, ◌-◌, Bool, true, false, ◌&&◌, ◌||◌, Option, none, some, List, [], ◌∷◌, ◌++◌, map,
  Text, length, take, ltb, leb, ◌==◌, mem_char, is_ascii_space, if◌then◌else◌,
}

pub data Regex : Type 0 where
  one : (ℕ → Bool) → Regex
  empty : Regex
  seq alt : Regex → Regex → Regex
  star lazy : Regex → Regex
  group : ℕ → Regex → Regex
  look look_not : Regex → Regex
  start end boundary : Regex

-- Where the matcher stands: the text before it in reverse, the text after it, the groups so far.
pub record Cursor : Type 0 where
  pub before : Text
  pub after : Text
  pub groups : List (ℕ × Text)

abbrev pub cursor : Text → Cursor
cursor s = record { before = []; after = s; groups = [] }

-- The next character, and the cursor behind it.
abbrev pub advance_over : Text → Cursor → Option (ℕ × Cursor)
advance_over [] c = none
advance_over (x ∷ xs) c = some (x, record c { before = x ∷ c.before; after = xs })

abbrev pub advance : Cursor → Option (ℕ × Cursor)
advance c = advance_over c.after c

abbrev pub when_char : (ℕ → Bool) → Option (ℕ × Cursor) → List Cursor
when_char p none = []
when_char p (some (x, d)) = if p x then d ∷ [] else []

-- The text that a match from `c` to `d` has read.
abbrev pub between : Cursor → Cursor → Text
between c d = take (length c.after - length d.after) c.after

abbrev pub capture : ℕ → Cursor → Cursor → Cursor
capture n c d = record d { groups = (n, between c d) ∷ d.groups }

-- A look-ahead reads nothing. No pattern of the linter has a group inside `(?=…)`.
abbrev pub when_any : Cursor → List Cursor → List Cursor
when_any c [] = []
when_any c (_ ∷ _) = c ∷ []

abbrev pub unless_any : Cursor → List Cursor → List Cursor
unless_any c [] = c ∷ []
unless_any c (_ ∷ _) = []

-- `\w` without the UNICODE flag.
abbrev pub is_word : ℕ → Bool
is_word c =
    c == 95 || leb b'0' c && leb c b'9' || leb b'A' c && leb c b'Z' || leb b'a' c && leb c b'z'

abbrev pub starts_word : Text → Bool
starts_word [] = false
starts_word (x ∷ _) = is_word x

-- `$`: at the end, or in front of a line feed that ends the text.
abbrev pub at_end : Text → Bool
at_end [] = true
at_end (x ∷ []) = x == 10
at_end (_ ∷ _ ∷ _) = false

abbrev pub is_nil : Text → Bool
is_nil [] = true
is_nil (_ ∷ _) = false

abbrev pub keep_if : Bool → Cursor → List Cursor
keep_if b c = if b then c ∷ [] else []

-- Only the cursors that stand behind `c`.
unfoldable pub advanced : Cursor → List Cursor → List Cursor
advanced c [] = []
advanced c (d ∷ ds) =
    let rest = advanced c ds in if ltb (length d.after) (length c.after) then d ∷ rest else rest

-- `r*`: another round first. The fuel is the length of the text that is left.
unfoldable pub rounds : ℕ → (Cursor → List Cursor) → Cursor → List Cursor
unfolding advanced
rounds zero f c = c ∷ []
rounds (suc n) f c = flat_map (rounds n f) (advanced c (f c)) ++ c ∷ []

-- `r*?`: the end of the rounds first.
unfoldable pub lazy_rounds : ℕ → (Cursor → List Cursor) → Cursor → List Cursor
unfolding advanced
lazy_rounds zero f c = c ∷ []
lazy_rounds (suc n) f c = c ∷ flat_map (lazy_rounds n f) (advanced c (f c))

-- Every way to match, in the order of backtracking.
unfoldable pub results : Regex → Cursor → List Cursor
unfolding rounds lazy_rounds flat_map mem_char is_ascii_space xor
results (one p) c = when_char p (advance c)
results empty c = c ∷ []
results (seq r s) c = flat_map (results s) (results r c)
results (alt r s) c = results r c ++ results s c
results (star r) c = rounds (length c.after) (results r) c
results (lazy r) c = lazy_rounds (length c.after) (results r) c
results (group n r) c = map (capture n c) (results r c)
results (look r) c = when_any c (results r c)
results (look_not r) c = unless_any c (results r c)
results start c = keep_if (is_nil c.before) c
results end c = keep_if (at_end c.after) c
results boundary c = keep_if (xor (starts_word c.before) (starts_word c.after)) c
