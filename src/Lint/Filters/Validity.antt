-- ===== src/Lint/Filters/Validity.antt =====
-- Which filter texts `SetFilters` accepts.
use mathlib.Core.Bool.{false≢true}
use dmanix.Base.{
  ◌≡◌, refl, sym, ◌∙◌, ◌↔◌, inl, inr, false, none, List, [], ◌∷◌, ◌++◌, Text, split_char,
  is_nil_text, Bool-cases, All,
}
use dmanix.Lint.{CppLintState}
use dmanix.Lint.Categories.{default_filters}
use dmanix.Lint.Filters.{has_sign, strip_bytes, clean_filters, set_filters}
use dmanix.Lint.Filters.Priority.{Signed, first_unsigned-none, Signed-first_unsigned}

-- A part between commas is blank, or starts with a sign once its ends are stripped.
abbrev pub IsFilterPart : Text → Type 0
IsFilterPart part = is_nil_text (strip_bytes part) ≡ false → Signed (strip_bytes part)

parts-clean : (parts : List Text) → All Signed (clean_filters parts) → All IsFilterPart parts
unfolding clean_filters
parts-clean [] h = tt
parts-clean (p ∷ ps) h = elim (Bool-cases (is_nil_text (strip_bytes p))) [
  | inl e ↦ (λ n. absurd (false≢true (sym n ∙ e)), parts-clean ps (rw e at h))
  | inr e ↦
      let k : Signed (strip_bytes p) × All Signed (clean_filters ps) = rw e at h in
      (λ n. k.0, parts-clean ps k.1)
]

clean-parts : (parts : List Text) → All IsFilterPart parts → All Signed (clean_filters parts)
unfolding clean_filters
clean-parts [] h = tt
clean-parts (p ∷ ps) h = elim (Bool-cases (is_nil_text (strip_bytes p))) [
  | inl e ↦ rw e (clean-parts ps h.1)
  | inr e ↦ rw e (h.0 e, clean-parts ps h.1)
]

-- `SetFilters` raises no ValueError exactly when each part between commas is blank or, stripped, starts
-- with '+' or '-'.
pub set_filters-accepts :
    (s : CppLintState) (filters : Text)
    → ((set_filters s filters).1 ≡ none) ↔ All IsFilterPart (split_char b',' filters)
set_filters-accepts s filters = (accepted, accepts)
  where
    accepted : (set_filters s filters).1 ≡ none → All IsFilterPart (split_char b',' filters)
    accepted h = parts-clean (split_char b',' filters) (
        (first_unsigned-none (default_filters ++ clean_filters (split_char b',' filters))
          (unfold set_filters in h)).1)

    accepts : All IsFilterPart (split_char b',' filters) → (set_filters s filters).1 ≡ none
    accepts h =
        unfold set_filters in
        Signed-first_unsigned (default_filters ++ clean_filters (split_char b',' filters))
          (unfold has_sign in (refl, clean-parts (split_char b',' filters) h))
