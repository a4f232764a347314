-- ===== src/Guard/Found.antt =====
-- The header guard check against a description of the guard's three lines.
use mathlib.Core.Option.{some-injective}
use dmanix.Base.{
  ℕ, ◌+◌, ◌≡◌, ◌≢◌, refl, sym, ap, ◌∙◌, ◌↔◌, Bool, true, false, Option, none, some, List, [], ◌∷◌,
  ◌++◌, Text, codes, text_eq, starts_with, arith, if◌then◌else◌, inl, inr, Bool-cases,
}
use dmanix.Base.TextLaws.{text_eq_iff}
use dmanix.Lint.{Action}
use dmanix.Guard.{
  split_words, GuardLines, no_guard, take_ifndef, take_define, take_words, take_endif, scan_guard,
  check_guard_style, check_endif, check_guard, is_line, check_names, check_for_header_guard,
}

-- The argument of a directive, on a line in words.
abbrev pub argument_of : Text → List Text → Option Text
argument_of d [] = none
argument_of d (_ ∷ []) = none
argument_of d (w ∷ v ∷ _) = if text_eq w d then some v else none

abbrev pub or_else : Option Text → Option Text → Option Text
or_else (some x) o = some x
or_else none o = o

-- The argument on the first line that has the directive.
unfoldable pub first_argument : Text → List Text → Option Text
first_argument d [] = none
first_argument d (line ∷ lines) =
    or_else (argument_of d (split_words line)) (first_argument d lines)

abbrev when_endif : Text → Option Text
when_endif line = if starts_with line (codes "#endif") then some line else none

-- The last line that begins with #endif.
unfoldable pub last_endif : List Text → Option Text
last_endif [] = none
last_endif (line ∷ lines) = or_else (last_endif lines) (when_endif line)

or_else_assoc : (a b c : Option Text) → or_else (or_else a b) c ≡ or_else a (or_else b c)
or_else_assoc none b c = refl
or_else_assoc (some x) b c = refl

take_endif-keeps :
    (n : ℕ) (line : Text) (g : GuardLines)
    → ((take_endif n line g).ifndef ≡ g.ifndef)
      × ((take_endif n line g).define ≡ g.define)
      × ((take_endif n line g).endif ≡ or_else (when_endif line) g.endif)
unfolding take_endif
take_endif-keeps n line g = ground arith

or_else-none : (o : Option Text) → o ≡ or_else o none
or_else-none none = refl
or_else-none (some x) = refl

take_ifndef-notes :
    (n : ℕ) (w v : Text) (g : GuardLines)
    → ((take_ifndef n w v g).ifndef ≡ or_else g.ifndef (argument_of (codes "#ifndef") (w ∷ v ∷ [])))
      × ((take_ifndef n w v g).define ≡ g.define)
      × ((take_ifndef n w v g).endif ≡ g.endif)
unfolding take_ifndef
take_ifndef-notes n w v g = ground arith

take_define-notes :
    (w v : Text) (g : GuardLines)
    → ((take_define w v g).ifndef ≡ g.ifndef)
      × ((take_define w v g).define ≡ or_else g.define (argument_of (codes "#define") (w ∷ v ∷ [])))
      × ((take_define w v g).endif ≡ g.endif)
unfolding take_define
take_define-notes w v g = ground arith

take_words-notes :
    (n : ℕ) (ws : List Text) (g : GuardLines)
    → ((take_words n ws g).ifndef ≡ or_else g.ifndef (argument_of (codes "#ifndef") ws))
      × ((take_words n ws g).define ≡ or_else g.define (argument_of (codes "#define") ws))
      × ((take_words n ws g).endif ≡ g.endif)
take_words-notes n [] g = (or_else-none g.ifndef, or_else-none g.define, refl)
take_words-notes n (w ∷ []) g = (or_else-none g.ifndef, or_else-none g.define, refl)
take_words-notes n (w ∷ v ∷ ws) g =
    let (i, d, e) = take_ifndef-notes n w v g in
    let (i', d', e') = take_define-notes w v (take_ifndef n w v g) in
    (i' ∙ i, d' ∙ ap (λ o. or_else o (argument_of (codes "#define") (w ∷ v ∷ []))) d, e' ∙ e)

-- What the loop has found: the first two, and the last #endif.
pub scan_guard-finds :
    (n : ℕ) (lines : List Text) (g : GuardLines)
    → ((scan_guard n lines g).ifndef ≡ or_else g.ifndef (first_argument (codes "#ifndef") lines))
      × ((scan_guard n lines g).define ≡ or_else g.define (first_argument (codes "#define") lines))
      × ((scan_guard n lines g).endif ≡ or_else (last_endif lines) g.endif)
unfolding scan_guard first_argument last_endif
scan_guard-finds n [] g = (or_else-none g.ifndef, or_else-none g.define, refl)
scan_guard-finds n (line ∷ lines) g =
    let words = split_words line in
    let t = take_words n words g in
    let (i, d, e) = take_words-notes n words g in
    let (i', d', e') = take_endif-keeps n line t in
    let (i2, d2, e2) = scan_guard-finds (n + 1) lines (take_endif n line t) in
    (
      i2
          ∙ ap (λ o. or_else o (first_argument (codes "#ifndef") lines)) (i' ∙ i)
          ∙ or_else_assoc g.ifndef (argument_of (codes "#ifndef") words)
              (first_argument (codes "#ifndef") lines),
      d2
          ∙ ap (λ o. or_else o (first_argument (codes "#define") lines)) (d' ∙ d)
          ∙ or_else_assoc g.define (argument_of (codes "#define") words)
              (first_argument (codes "#define") lines),
      e2
          ∙ ap (or_else (last_endif lines)) (e' ∙ ap (or_else (when_endif line)) e)
          ∙ sym (or_else_assoc (last_endif lines) (when_endif line) g.endif),
    )

is_line_iff : (o : Option Text) (s : Text) → (is_line o s ≡ true) ↔ (o ≡ some s)
is_line_iff none s = grind arith
is_line_iff (some r) s =
    (λ e. ap some ((text_eq_iff r s).0 e), λ e. (text_eq_iff r s).1 (some-injective r s e))

append-ne-nil : (xs : List Action) (a : Action) → xs ++ a ∷ [] ≢ []
append-ne-nil [] a = grind arith
append-ne-nil (x ∷ xs) a = grind arith

if_silent :
    (b : Bool) (xs : List Action) (a : Action)
    → ((if b then [] else xs ++ a ∷ []) ≡ []) ↔ (b ≡ true)
if_silent true xs a = (λ e. refl, λ e. refl)
if_silent false xs a = (λ e. absurd (append-ne-nil xs a e), grind arith)

both_nil : (xs ys : List Action) → (xs ++ ys ≡ []) ↔ ((xs ≡ []) × (ys ≡ []))
both_nil [] ys = (λ e. (refl, e), λ h. h.1)
both_nil (x ∷ xs) ys = (λ e. grind arith, λ h. grind arith)

abbrev iff_trans : {A B C : Type 0} → A ↔ B → B ↔ C → A ↔ C
iff_trans f g = (λ a. g.0 (f.0 a), λ c. f.1 (g.1 c))

check_guard_style-silent :
    (filename : Text) (lines : List Text) (cppvar : Text) (linenum : ℕ) (ifndef : Text)
    → (check_guard_style filename lines cppvar linenum ifndef ≡ []) ↔ (ifndef ≡ cppvar)
unfolding check_guard_style
check_guard_style-silent filename lines cppvar linenum ifndef =
    iff_trans (if_silent (text_eq ifndef cppvar) _ _) (text_eq_iff ifndef cppvar)

check_endif-silent :
    (filename : Text) (lines : List Text) (cppvar : Text) (linenum : ℕ) (endif : Option Text)
    → (check_endif filename lines cppvar linenum endif ≡ [])
      ↔ (endif ≡ some (codes "#endif  // " ++ cppvar))
unfolding check_endif
check_endif-silent filename lines cppvar linenum endif =
    iff_trans (if_silent (is_line endif (codes "#endif  // " ++ cppvar)) _ _)
      (is_line_iff endif (codes "#endif  // " ++ cppvar))

-- The three lines of a guard of name `cppvar`.
abbrev pub Guarded : Text → Option Text → Option Text → Option Text → Type 0
Guarded cppvar ifndef define endif =
    (ifndef ≡ some cppvar) × (define ≡ some cppvar) × (endif ≡ some (codes "#endif  // " ++ cppvar))

check_names-silent :
    (filename : Text) (lines : List Text) (cppvar : Text) (g : GuardLines) (ifndef define : Text)
    → (check_names filename lines cppvar g ifndef define ≡ [])
      ↔ Guarded cppvar (some ifndef) (some define) g.endif
check_names-silent filename lines cppvar g ifndef define = (forth, back)
  where
    forth :
        check_names filename lines cppvar g ifndef define ≡ []
        → Guarded cppvar (some ifndef) (some define) g.endif
    forth e = elim (Bool-cases (text_eq define ifndef)) [
      | inl t ↦
          let k : check_guard_style filename lines cppvar g.ifndef_linenum ifndef
                ++ check_endif filename lines cppvar g.endif_linenum g.endif
              ≡ [] =
            rw t at e in
          let (a, b) = (both_nil _ _).0 k in
          let named =
            (check_guard_style-silent filename lines cppvar g.ifndef_linenum ifndef).0 a in
          let same = (text_eq_iff define ifndef).0 t in
          (
            ap some named,
            ap some (same ∙ named),
            (check_endif-silent filename lines cppvar g.endif_linenum g.endif).0 b,
          )
      | inr t ↦ absurd (append-ne-nil _ _ (rw t at e))
    ]

    back :
        Guarded cppvar (some ifndef) (some define) g.endif
        → check_names filename lines cppvar g ifndef define ≡ []
    back (a, b, c) =
        let named = some-injective ifndef cppvar a in
        let same = some-injective define cppvar b ∙ sym named in
        rw ((text_eq_iff define ifndef).1 same) (
          (both_nil _ _).1 (
            (check_guard_style-silent filename lines cppvar g.ifndef_linenum ifndef).1 named,
            (check_endif-silent filename lines cppvar g.endif_linenum g.endif).1 c,
          ))

check_guard-silent :
    (filename : Text) (lines : List Text) (cppvar : Text) (g : GuardLines)
    (ifndef define : Option Text)
    → (check_guard filename lines cppvar g ifndef define ≡ [])
      ↔ Guarded cppvar ifndef define g.endif
check_guard-silent filename lines cppvar g none define = (λ e. grind arith, λ h. grind arith)
check_guard-silent filename lines cppvar g (some ifndef) none = (λ e. grind arith, λ h. grind arith)
check_guard-silent filename lines cppvar g (some ifndef) (some define) =
    check_names-silent filename lines cppvar g ifndef define

-- CheckForHeaderGuard reports nothing exactly when the first #ifndef and the first #define of the
-- lines both name `cppvar`, and the last line that begins with #endif is `#endif  // ` and `cppvar`.
pub check_for_header_guard-silent :
    (filename : Text) (lines : List Text) (cppvar : Text)
    → (check_for_header_guard filename lines cppvar ≡ [])
      ↔ Guarded cppvar
          (first_argument (codes "#ifndef") lines)
          (first_argument (codes "#define") lines)
          (last_endif lines)
check_for_header_guard-silent filename lines cppvar =
    let g = scan_guard 0 lines no_guard in
    let (i, d, e) = scan_guard-finds 0 lines no_guard in
    unfold check_for_header_guard in
    rw (← i, ← d, or_else-none (last_endif lines), ← e)
      (check_guard-silent filename lines cppvar g g.ifndef g.define)
