-- ===== src/Lint/Filters/Priority.antt =====
-- The filters decide by priority: the last one that applies.
use mathlib.Core.List.{reverse-append}
use dmanix.Base.{
  ◌≡◌, refl, ◌∙◌, inl, inr, Bool, true, false, Option, none, some, List, [], ◌∷◌, ◌++◌, reverse,
  Text, starts_with, ◌==◌, if◌then◌else◌, Bool-cases, arith, All,
}
use dmanix.Lint.{CppLintState}
use dmanix.Lint.Filters.{apply_filter, filter_loop, has_sign, first_unsigned, set_filters}

-- Does the filter, less its sign, start the category? And does its sign exclude?
abbrev applies : Text → Text → Bool
applies category [] = false
applies category (sign ∷ rest) = starts_with category rest

abbrev excludes : Text → Bool
excludes [] = false
excludes (sign ∷ rest) = sign == b'-'

-- An independent description: the first filter that applies, in a list with the last filter in front.
abbrev pub first_that_applies : Text → List Text → Bool → Bool
first_that_applies category [] otherwise = otherwise
first_that_applies category (f ∷ fs) otherwise =
    let rest = first_that_applies category fs otherwise in
    if applies category f then excludes f else rest

abbrev pub Signed : Text → Type 0
Signed f = has_sign f ≡ true

apply_filter_lem :
    (category f : Text) (b : Bool)
    → Signed f
    → apply_filter category f b ≡ some (if applies category f then excludes f else b)
unfolding apply_filter has_sign
apply_filter_lem category [] b h = ground arith
apply_filter_lem category (sign ∷ rest) b h = ground arith

first_that_applies-append :
    (category : Text) (fs : List Text) (f : Text) (b : Bool)
    → first_that_applies category (fs ++ f ∷ []) b
      ≡ first_that_applies category fs (if applies category f then excludes f else b)
first_that_applies-append category [] f b = refl
first_that_applies-append category (g ∷ fs) f b = rw (first_that_applies-append category fs f b)

pub filter_loop-first_that_applies :
    (category : Text) (fs : List Text) (b : Bool)
    → All Signed fs
    → filter_loop category fs b ≡ some (first_that_applies category (reverse fs) b)
filter_loop-first_that_applies category [] b h = unfold filter_loop in refl
filter_loop-first_that_applies category (f ∷ fs) b h =
    let step : Bool = if applies category f then excludes f else b in
    let once : filter_loop category (f ∷ fs) b ≡ filter_loop category fs step =
      unfold filter_loop in rw (apply_filter_lem category f b h.0) in
    let rev : reverse (f ∷ fs) ≡ reverse fs ++ f ∷ [] = reverse-append (f ∷ []) fs in
    once
    ∙ filter_loop-first_that_applies category fs step h.1
    ∙ rw (rev, first_that_applies-append category (reverse fs) f b)

-- Without a ValueError every filter has a sign, so the assertion in the loop cannot fail.
pub first_unsigned-none : (fs : List Text) → first_unsigned fs ≡ none → All Signed fs
unfolding first_unsigned
first_unsigned-none [] h = tt
first_unsigned-none (f ∷ fs) h = elim (Bool-cases (has_sign f)) [
  | inl e ↦ (e, first_unsigned-none fs (rw e at h))
  | inr e ↦ cc (let k : ◌≡◌ {A = Option Text} (some f) none = rw e at h in k)
]

pub Signed-first_unsigned : (fs : List Text) → All Signed fs → first_unsigned fs ≡ none
unfolding first_unsigned
Signed-first_unsigned [] h = refl
Signed-first_unsigned (f ∷ fs) h = rw h.0 (Signed-first_unsigned fs h.1)

-- After `SetFilters(filters)` without a ValueError, the loop of `_ShouldPrintError` finishes for every
-- category, and it answers as the last filter that starts the category says, or false where no filter
-- does.
pub filter_loop-set_filters :
    (s : CppLintState) (filters category : Text)
    → (set_filters s filters).1 ≡ none
    → filter_loop category (set_filters s filters).0.filters false
      ≡ some (first_that_applies category (reverse (set_filters s filters).0.filters) false)
filter_loop-set_filters s filters category h =
    filter_loop-first_that_applies category (set_filters s filters).0.filters false
      (first_unsigned-none (set_filters s filters).0.filters (unfold set_filters in h))
