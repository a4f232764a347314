-- ===== src/Headers/Once.antt =====
-- A header is entered once, and a repeated #include is reported.
use dmanix.Base.{
  ℕ, ◌≡◌, refl, Bool, Option, none, some, ◌∷◌, Text, codes, text_eq, arith, inl, inr, Bool-cases,
  if◌then◌else◌,
}
use dmanix.Base.TextLaws.{text_eq→eq}
use dmanix.Regex.Search.{Found, search_in, group_text}
use dmanix.Headers.{
  HeaderType, Place, line, IncludeState, check_next_include_order, is_in_alphabetical_order,
}
use dmanix.Headers.Line.{re_include, place_of, new_include, include_or_repeat, check_include_line}

-- An entry that is there stays.
abbrev pub first_place : Option Place → Option Place → Option Place
first_place none o = o
first_place (some p) o = some p

first_place-none : (o : Option Place) → o ≡ first_place o none
first_place-none none = refl
first_place-none (some p) = refl

order-included :
    (t : HeaderType) (s : IncludeState) → (check_next_include_order t s).1.included ≡ s.included
unfolding check_next_include_order
order-included t s = ground arith

alphabet-included :
    (header : Text) (s : IncludeState) → (is_in_alphabetical_order header s).1.included ≡ s.included
unfolding is_in_alphabetical_order
alphabet-included header s = ground arith

new_include-included :
    (filename repository_name base_name : Text) (linenum : ℕ) (include : Text) (is_system : Bool)
    (s : IncludeState)
    → (new_include filename repository_name base_name linenum include is_system s).1.included
      ≡ (include, line linenum) ∷ s.included
unfolding new_include
new_include-included filename repository_name base_name linenum include is_system s =
    rw (alphabet-included, order-included)

-- The table after a header that has the place `o` so far.
include_or_repeat-place_of :
    (filename repository_name base_name : Text) (linenum : ℕ) (include : Text) (is_system : Bool)
    (s : IncludeState) (o : Option Place) (other : Text)
    → place_of include s.included ≡ o
    → place_of other
        (include_or_repeat filename repository_name base_name linenum include is_system s
          o).1.included
      ≡ first_place
          (place_of other s.included)
          (if text_eq include other then some (line linenum) else none)
include_or_repeat-place_of filename repository_name base_name linenum include is_system s (some p)
      other e =
    elim (Bool-cases (text_eq include other)) [
      | inl t ↦
          let q : place_of other s.included ≡ some p = rw (text_eq→eq include other t) at e in
          rw (t, q) refl
      | inr t ↦ rw t (first_place-none (place_of other s.included))
    ]
include_or_repeat-place_of filename repository_name base_name linenum include is_system s none other
      e =
    rw (new_include-included filename repository_name base_name linenum include is_system s)
      (elim (Bool-cases (text_eq include other)) [
        | inl t ↦
            let q : place_of other s.included ≡ none = rw (text_eq→eq include other t) at e in
            unfold place_of in rw (t, q) refl
        | inr t ↦ unfold place_of in rw t (first_place-none (place_of other s.included))
      ])

-- After a line that includes a header, every other header has the place that it had, and so has this
-- header if it had one; otherwise its place is the line.
pub check_include_line-place_of :
    (filename repository_name base_name source_line : Text) (linenum : ℕ) (s : IncludeState)
    (m : Found) (other : Text)
    → search_in re_include source_line ≡ some m
    → place_of other
        (check_include_line filename repository_name base_name source_line linenum s).1.included
      ≡ first_place
          (place_of other s.included)
          (if text_eq (group_text m 2) other then some (line linenum) else none)
check_include_line-place_of filename repository_name base_name source_line linenum s m other found =
    let entered : (check_include_line filename repository_name base_name source_line linenum s).1
        ≡ (include_or_repeat filename repository_name base_name linenum (group_text m 2)
            (text_eq (group_text m 1) (codes "<")) s (place_of (group_text m 2) s.included)).1 =
      unfold check_include_line in rw found in
    rw entered (
      include_or_repeat-place_of filename repository_name base_name linenum (group_text m 2)
        (text_eq (group_text m 1) (codes "<")) s (place_of (group_text m 2) s.included) other refl)
