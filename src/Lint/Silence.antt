-- ===== src/Lint/Silence.antt =====
-- What a NOLINT comment silences.
use mathlib.Core.Bool.{false≢true}
use dmanix.Base.{
  ℕ, suc, ◌-◌, ◌≡◌, refl, sym, ap, ◌∙◌, ◌⊎◌, inl, inr, true, false, ◌&&◌, Option, none, some, List,
  [], ◌∷◌, ◌++◌, Text, codes, text_eq, mem_text, length, length-append, take_prefix, ◌==◌, ==_refl,
  Bool-cases, arith,
}
use dmanix.Base.TextLaws.{text_eq→eq, text_eq_refl, starts_with_complete, ends_with_complete}
use dmanix.Regex.Search.{Found, search_in, group_of}
use dmanix.Lint.{Globals, suppress}
use dmanix.Lint.Categories.{error_categories}
use dmanix.Lint.Suppress.{
  re_suppression, inside, nolint_category, parse_nolint_suppressions, suppressed_under, option_eq,
  is_error_suppressed_by_nolint,
}
use dmanix.Lint.Unclosed.{NoParenthesis, unclosed-group}
use dmanix.Lint.Emit.{should_print_error, error, perform_all}

-- A suppressed error changes nothing: it is neither written nor counted.
pub error-suppressed :
    (filename : Text) (linenum : ℕ) (category : Text) (confidence : ℕ) (message : Text)
    (g : Globals)
    → is_error_suppressed_by_nolint category linenum g.suppressions ≡ true
    → error filename linenum category confidence message g ≡ some g
unfolding error should_print_error
error-suppressed filename linenum category confidence message g h = rw h

option_eq_refl : (k : Option Text) → option_eq k k ≡ true
option_eq_refl none = refl
option_eq_refl (some s) = text_eq_refl s

under_new :
    (key : Option Text) (linenum : ℕ) (ps : List (Option Text × ℕ))
    → suppressed_under key linenum ((key, linenum) ∷ ps) ≡ true
unfolding suppressed_under
under_new key linenum ps = rw (option_eq_refl key, ==_refl linenum)

bare_actions :
    (filename raw_line : Text) (linenum : ℕ) (m : Found)
    → search_in re_suppression raw_line ≡ some m
    → (group_of m 1 ≡ none) ⊎ ((group_of m 1 ≡ some (codes "(*)")) ⊎ NoParenthesis raw_line)
    → parse_nolint_suppressions filename raw_line linenum ≡ suppress none linenum ∷ []
bare_actions filename raw_line linenum m found (inl e) =
    unfold parse_nolint_suppressions in rw found (rw e)
bare_actions filename raw_line linenum m found (inr (inr n)) =
    unfold parse_nolint_suppressions in rw found (rw (unclosed-group raw_line m n found))
bare_actions filename raw_line linenum m found (inr (inl e)) =
    unfold parse_nolint_suppressions in
    rw found (rw e (rw (text_eq_refl (codes "(*)"), nolint_category)))

-- The globals after `_error_suppressions.setdefault(key, set()).add(linenum)`.
abbrev with_suppression : Option Text → ℕ → Globals → Globals
with_suppression key linenum g = record g { suppressions = (key, linenum) ∷ g.suppressions }

perform_suppress :
    (key : Option Text) (linenum : ℕ) (g : Globals)
    → perform_all (suppress key linenum ∷ []) g ≡ some (with_suppression key linenum g)
unfolding perform_all
perform_suppress key linenum g = refl

-- A line whose first NOLINT comment names no category, or names `(*)`, and a line with NOLINT that has no closing
-- parenthesis, as in `NOLINT(build/include`, silences every error on that line: the line is read without a
-- report, and from then on an error there changes nothing.
pub bare_nolint-error :
    (filename raw_line category message : Text) (linenum confidence : ℕ) (g : Globals) (m : Found)
    → search_in re_suppression raw_line ≡ some m
    → (group_of m 1 ≡ none) ⊎ ((group_of m 1 ≡ some (codes "(*)")) ⊎ NoParenthesis raw_line)
    → (g' : Globals) × (perform_all (parse_nolint_suppressions filename raw_line linenum) g
        ≡ some g')
      × (g'.written ≡ g.written)
      × (error filename linenum category confidence message g' ≡ some g')
bare_nolint-error filename raw_line category message linenum confidence g m found which =
    let silent : is_error_suppressed_by_nolint category linenum ((none, linenum) ∷ g.suppressions)
        ≡ true =
      unfold is_error_suppressed_by_nolint in
      rw (under_new none linenum g.suppressions) (ground arith) in
    (
      with_suppression none linenum g,
      rw (bare_actions filename raw_line linenum m found which) (perform_suppress none linenum g),
      refl,
      error-suppressed filename linenum category confidence message
          (with_suppression none linenum g) silent,
    )

abbrev parenthesised : Text → Text
parenthesised category = b'(' ∷ category ++ b')' ∷ []

inside-parenthesised : (category : Text) → inside (parenthesised category) ≡ category
inside-parenthesised category =
    let e : length (parenthesised category) - 1 ≡ suc (length category) =
      omega (arith, length-append category (b')' ∷ [])) in
    rw e (take_prefix category (b')' ∷ []))

known-ne-star :
    (category : Text)
    → mem_text category error_categories ≡ true
    → text_eq (parenthesised category) (codes "(*)") ≡ false
known-ne-star category known = elim (Bool-cases (text_eq (parenthesised category) (codes "(*)"))) [
  | inr e ↦ e
  | inl e ↦
      let star : category ≡ codes "*" =
        sym (inside-parenthesised category)
        ∙ ap inside (text_eq→eq (parenthesised category) (codes "(*)") e) in
      let no : mem_text (codes "*") error_categories ≡ false =
        unfold mem_text error_categories in refl in
      absurd
        (false≢true (sym no ∙ ap (λ (t : Text). mem_text t error_categories) (sym star) ∙ known))
]

known_actions :
    (filename raw_line category : Text) (linenum : ℕ) (m : Found)
    → search_in re_suppression raw_line ≡ some m
    → group_of m 1 ≡ some (parenthesised category)
    → mem_text category error_categories ≡ true
    → parse_nolint_suppressions filename raw_line linenum ≡ suppress (some category) linenum ∷ []
known_actions filename raw_line category linenum m found e known =
    let one : parse_nolint_suppressions filename raw_line linenum
        ≡ nolint_category filename (parenthesised category) linenum =
      unfold parse_nolint_suppressions in rw found (rw e) in
    let two : nolint_category filename (parenthesised category) linenum
        ≡ suppress (some category) linenum ∷ [] =
      unfold nolint_category in
      rw (
        known-ne-star category known,
        starts_with_complete (codes "(") (category ++ b')' ∷ []),
        ends_with_complete (b'(' ∷ category) (codes ")"),
        inside-parenthesised category,
        known,
      ) in
    one ∙ two

under_other :
    (key other : Option Text) (linenum line : ℕ) (ps : List (Option Text × ℕ))
    → (option_eq key other && linenum == line) ≡ false
    → suppressed_under other line ((key, linenum) ∷ ps) ≡ suppressed_under other line ps
unfolding suppressed_under
under_other key other linenum line ps h = rw h

-- A line whose first NOLINT comment names a category of the list silences that category on that line,
-- and decides as before about every other category and every other line.
pub known_nolint-error :
    (filename raw_line category : Text) (linenum : ℕ) (g : Globals) (m : Found)
    → search_in re_suppression raw_line ≡ some m
    → group_of m 1 ≡ some (parenthesised category)
    → mem_text category error_categories ≡ true
    → (g' : Globals) × (perform_all (parse_nolint_suppressions filename raw_line linenum) g
        ≡ some g')
      × (is_error_suppressed_by_nolint category linenum g'.suppressions ≡ true)
      × ((other : Text) (line : ℕ)
          → (text_eq category other && linenum == line) ≡ false
          → is_error_suppressed_by_nolint other line g'.suppressions
            ≡ is_error_suppressed_by_nolint other line g.suppressions)
known_nolint-error filename raw_line category linenum g m found e known = (
  with_suppression (some category) linenum g,
  rw (known_actions filename raw_line category linenum m found e known)
      (perform_suppress (some category) linenum g),
  unfold is_error_suppressed_by_nolint in rw (under_new (some category) linenum g.suppressions),
  λ other line h.
      unfold is_error_suppressed_by_nolint in
      rw (
        under_other (some category) (some other) linenum line g.suppressions h,
        under_other (some category) none linenum line g.suppressions refl,
      ),
)
