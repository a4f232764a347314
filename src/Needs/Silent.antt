-- ===== src/Needs/Silent.antt =====
-- When `CheckForIncludeWhatYouUse` is silent.
use mathlib.Core.Bool.{false≢true}
use mathlib.Core.Path.{subst}
use dmanix.Base.{
  ℕ, ◌+◌, ◌≡◌, ◌↔◌, ◌⊎◌, refl, inl, inr, Bool, true, false, not, ◌&&◌, Option, List, [], ◌∷◌, All,
  map, Text, codes, ends_with, is_some, text_eq, Bool-cases, if◌then◌else◌,
}
use dmanix.Base.TextLaws.{text_eq→eq}
use dmanix.Lint.{Action}
use dmanix.Lines.{CleansedLines}
use dmanix.Headers.Line.{place_of}
use dmanix.Needs.{Use, Required, line_uses, put, put_uses, require_lines}
use dmanix.Needs.Check.{
  Included, strip_quotes, report_missing, read_headers, without_flymake,
  check_for_include_what_you_use,
}

-- The file, or its header, includes the header.
abbrev pub Includes : Included → Text → Type 0
Includes included header = is_some (place_of (strip_quotes header) included) ≡ true

abbrev pub AllKeys : (Text → Type 0) → Required → Type 0
AllKeys P required = All (λ (e : Text × (ℕ × Text)). P e.0) required

abbrev pub AllUses : (Text → Type 0) → List Use → Type 0
AllUses P uses = All (λ (u : Use). P u.0) uses

module _ (P : Text → Type 0) where
  put-AllKeys :
      (header : Text) (r : ℕ × Text) (required : Required)
      → AllKeys P (put header r required) ↔ (P header × AllKeys P required)
  unfolding put
  put-AllKeys header r [] = (λ h. h, λ h. h)
  put-AllKeys header r ((k, q) ∷ required) = elim (Bool-cases (text_eq k header)) [
    | inl e ↦
        let same : k ≡ header = text_eq→eq k header e in rw e (λ h. (subst P same h.0, h), λ h. h.1)
    | inr e ↦
        let (to, from) = put-AllKeys header r required in
        rw e (λ h. let (p, all) = to h.1 in (p, (h.0, all)), λ (p, (q, all)). (q, from (p, all)))
  ]

  put_uses-AllKeys :
      (n : ℕ) (uses : List Use) (required : Required)
      → AllKeys P (put_uses n uses required) ↔ (AllUses P uses × AllKeys P required)
  unfolding put_uses
  put_uses-AllKeys n [] required = (λ h. (tt, h), λ h. h.1)
  put_uses-AllKeys n ((header, template) ∷ uses) required =
      let (to, from) = put_uses-AllKeys n uses (put header (n, template) required) in
      let (to_put, from_put) = put-AllKeys header (n, template) required in
      (
        λ h. let (a, b) = to h in let (p, c) = to_put b in ((p, a), c),
        λ ((p, a), c). from (a, from_put (p, c)),
      )

  require_lines-AllKeys :
      (n : ℕ) (lines : List Text) (required : Required)
      → AllKeys P (require_lines n lines required)
        ↔ (All (λ l. AllUses P (line_uses l)) lines × AllKeys P required)
  unfolding require_lines
  require_lines-AllKeys n [] required = (λ h. (tt, h), λ h. h.1)
  require_lines-AllKeys n (l ∷ lines) required =
      let (to, from) = require_lines-AllKeys (n + 1) lines (put_uses n (line_uses l) required) in
      let (to_put, from_put) = put_uses-AllKeys n (line_uses l) required in
      (
        λ h. let (a, b) = to h in let (p, c) = to_put b in ((p, a), c),
        λ ((p, a), c). from (a, from_put (p, c)),
      )

report_missing-AllKeys :
    (filename : Text) (included : Included) (required : Required)
    → (report_missing filename included required ≡ []) ↔ AllKeys (Includes included) required
unfolding report_missing
report_missing-AllKeys filename included [] = (λ h. tt, λ h. refl)
report_missing-AllKeys filename included ((header, (linenum, template)) ∷ required) =
    let (to, from) = report_missing-AllKeys filename included required in
    elim (Bool-cases (is_some (place_of (strip_quotes header) included))) [
      | inl e ↦ rw e (λ h. (refl, to h), λ h. from h.1)
      | inr e ↦ rw e (λ h. absurd (cc), λ h. absurd (false≢true h.0))
    ]

gives_up :
    {Q : Type 0} (b : Bool) (actions : List Action)
    → ((actions ≡ []) ↔ Q)
    → (◌≡◌ {A = List Action} (if b then [] else actions) []) ↔ ((b ≡ true) ⊎ Q)
gives_up true actions h = (λ k. inl refl, λ k. refl)
gives_up false actions (to, from) =
    (λ k. inr (to k), λ k. elim k [ inl q ↦ absurd (false≢true q) | inr q ↦ from q ])

-- The report for all lines.
lines_met :
    (filename : Text) (included : Included) (lines : List Text)
    → (report_missing filename included (require_lines 0 lines []) ≡ [])
      ↔ All (λ l. AllUses (Includes included) (line_uses l)) lines
lines_met filename included lines =
    let (to, from) = report_missing-AllKeys filename included (require_lines 0 lines []) in
    let (to_uses, from_uses) = require_lines-AllKeys (Includes included) 0 lines [] in
    (λ h. (to_uses (to h)).0, λ h. from (from_uses (h, tt)))

-- What the check knows when it comes to its report: the includes, and whether it has read a header of the file.
abbrev pub known : (Text → Option (List Text)) → Text → Included → Included × Bool
known open_file full_name included =
    read_headers open_file (without_flymake full_name) (map (λ e. e.0) included) included

-- The check is silent exactly when the file is a .cc file whose header it has not been able to read, or when
-- for each use of the standard library on a line of the file, the header of that use is included, by the file
-- itself or by a header of its module that could be read.
pub check_for_include_what_you_use_iff :
    (open_file : Text → Option (List Text)) (full_name filename : Text) (clean : CleansedLines)
    (included : Included)
    → (check_for_include_what_you_use open_file full_name filename clean included ≡ []) ↔ (
        ((ends_with filename (codes ".cc") && not (known open_file full_name included).1) ≡ true)
        ⊎ All
            (λ l. AllUses (Includes (known open_file full_name included).0) (line_uses l))
            clean.elided)
unfolding check_for_include_what_you_use
check_for_include_what_you_use_iff open_file full_name filename clean included =
    gives_up (ends_with filename (codes ".cc") && not (known open_file full_name included).1) _
      (lines_met filename (known open_file full_name included).0 clean.elided)
