-- ===== src/Lint/Filters.antt =====
-- `SetFilters` and the filter loop of `_ShouldPrintError`.
pub mod Priority
pub mod Validity
use dmanix.Base.{
  Bool, true, false, ◌&&◌, ◌||◌, Option, none, some, List, [], ◌∷◌, ◌++◌, map, Text, codes,
  starts_with, split_char, reverse, is_ascii_space, is_nil_text, ◌==◌, if◌then◌else◌,
}
use dmanix.Lint.{CppLintState}
use dmanix.Lint.Categories.{default_filters}

-- One round of `for one_filter in _Filters()`; `none` is the failed `assert False`.
unfoldable pub apply_filter : Text → Text → Bool → Option Bool
apply_filter category [] is_filtered = none
apply_filter category (sign ∷ rest) is_filtered =
    if sign == b'-'
    then (if starts_with category rest then some true else some is_filtered)
    else if sign == b'+'
    then (if starts_with category rest then some false else some is_filtered)
    else none

abbrev and_then : Option Bool → (Bool → Option Bool) → Option Bool
and_then none f = none
and_then (some b) f = f b

unfoldable pub filter_loop : Text → List Text → Bool → Option Bool
unfolding apply_filter
filter_loop category [] is_filtered = some is_filtered
filter_loop category (f ∷ fs) is_filtered =
    and_then (apply_filter category f is_filtered) (filter_loop category fs)

-- filt.startswith('+') or filt.startswith('-')
unfoldable pub has_sign : Text → Bool
has_sign [] = false
has_sign (sign ∷ rest) = sign == b'+' || sign == b'-'

-- filt.strip() of a byte string: the white space of ASCII.
unfoldable pub lstrip_bytes : Text → Text
unfolding is_ascii_space
lstrip_bytes [] = []
lstrip_bytes (c ∷ s) = let rest = lstrip_bytes s in if is_ascii_space c then rest else c ∷ s

unfoldable pub strip_bytes : Text → Text
unfolding lstrip_bytes
strip_bytes s = reverse (lstrip_bytes (reverse (lstrip_bytes s)))

-- for filt in filters.split(','): append filt.strip() if it is not empty
unfoldable pub clean_filters : List Text → List Text
clean_filters [] = []
clean_filters (f ∷ fs) =
    let rest = clean_filters fs in
    let clean = strip_bytes f in if is_nil_text clean then rest else clean ∷ rest

unfoldable pub first_unsigned : List Text → Option Text
unfolding has_sign
first_unsigned [] = none
first_unsigned (f ∷ fs) = let rest = first_unsigned fs in if has_sign f then rest else some f

-- SetFilters: the new state, and the filter that a ValueError names, if one is raised. The filters
-- stay set when it is.
unfoldable pub set_filters : CppLintState → Text → CppLintState × Option Text
unfolding clean_filters first_unsigned
set_filters s filters =
    let all = default_filters ++ clean_filters (split_char b',' filters) in
    (record s { filters = all }, first_unsigned all)
