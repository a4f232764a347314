-- ===== src/Whole/Newline.antt =====
-- The check for a newline at the end of the file, told of the text that the lines come from.
use dmanix.Base.{
  ℕ, ◌≡◌, refl, ap, ◌↔◌, ◌≢◌, ◌⊎◌, inl, inr, Bool, true, false, List, [], ◌∷◌, ◌++◌, Text, codes,
  length, length-append, split_char, cons_part, ◌==◌, ltb, ==_iff, Bool-cases, arith, if◌then◌else◌,
}
use dmanix.Lint.{Action}
use dmanix.Whole.{is_empty, second_last, with_markers, check_for_newline_at_eof}

-- A text that is empty or ends with a newline.
abbrev pub Ended : Text → Type 0
Ended t = (t ≡ []) ⊎ ((r : Text) × (t ≡ r ++ 10 ∷ []))

abbrev last_part : List Text → Text
last_part [] = []
last_part (p ∷ []) = p
last_part (p ∷ q ∷ ps) = last_part (q ∷ ps)

second_last_marker :
    (ps : List Text) (m : Text) (p : Text) → second_last (p ∷ ps ++ m ∷ []) ≡ last_part (p ∷ ps)
second_last_marker [] m p = refl
second_last_marker (q ∷ []) m p = refl
second_last_marker (q ∷ r ∷ ps) m p = second_last_marker (r ∷ ps) m q

-- A text that ends with a newline is split into at least two parts, the last of them empty.
record LastEmpty (ps : List Text) : Type 0 where
  first : Text
  second : Text
  others : List Text
  parts : ps ≡ first ∷ second ∷ others
  last : last_part (second ∷ others) ≡ []

ended-LastEmpty : (r : Text) → LastEmpty (split_char 10 (r ++ 10 ∷ []))
unfolding split_char
ended-LastEmpty [] = record { first = []; second = []; others = []; parts = refl; last = refl }
ended-LastEmpty (x ∷ r) =
    let v = ended-LastEmpty r in
    elim (Bool-cases (x == 10)) [
      | inl e ↦ record {
        first = [];
        second = v.first;
        others = v.second ∷ v.others;
        parts = rw (e, v.parts) refl;
        last = v.last;
      }
      | inr e ↦ record {
        first = x ∷ v.first;
        second = v.second;
        others = v.others;
        parts = rw (e, v.parts) refl;
        last = v.last;
      }
    ]

Ended-cons : (d : ℕ) (s : Text) → s ≢ [] → Ended s → Ended (d ∷ s)
Ended-cons d s h (inl e) = absurd (h e)
Ended-cons d s h (inr (r, e)) = inr (d ∷ r, ap (λ (t : Text). d ∷ t) e)

newline-Ended : (s : Text) → Ended s → Ended (10 ∷ s)
newline-Ended s (inl e) = inr ([], ap (λ (t : Text). 10 ∷ t) e)
newline-Ended s (inr (r, e)) = inr (10 ∷ r, ap (λ (t : Text). 10 ∷ t) e)

not_empty : (s p q : Text) (ps : List Text) → split_char 10 s ≡ p ∷ q ∷ ps → s ≢ []
unfolding split_char
not_empty [] p q ps e h = cc
not_empty (x ∷ s) p q ps e h = cc

last-split-Ended : (t : Text) → last_part (split_char 10 t) ≡ [] → Ended t
last-split-Ended [] h = inl refl
last-split-Ended (d ∷ s) h =
    go (split_char 10 s) (d == 10) refl (unfold split_char in h) (λ e. (==_iff d 10).0 e)
      (last-split-Ended s)
  where
    go :
        (ps : List Text) (b : Bool)
        → split_char 10 s ≡ ps
        → last_part (if b then [] ∷ ps else cons_part d ps) ≡ []
        → (b ≡ true → d ≡ 10)
        → (last_part (split_char 10 s) ≡ [] → Ended s)
        → Ended (d ∷ s)
    go [] true e k n ih = rw (n refl) (newline-Ended s (ih (rw e refl)))
    go (p ∷ ps) true e k n ih = rw (n refl) (newline-Ended s (ih (rw e k)))
    go [] false e k n ih = absurd (cc)
    go (p ∷ []) false e k n ih = absurd (cc)
    go (p ∷ q ∷ ps) false e k n ih = Ended-cons d s (not_empty s p q ps e) (ih (rw e k))

Ended-last-split : (t : Text) → Ended t → last_part (split_char 10 t) ≡ []
Ended-last-split t (inl e) = rw e (unfold split_char in refl)
Ended-last-split t (inr (r, e)) = let v = ended-LastEmpty r in rw e (rw v.parts v.last)

verdict_iff :
    (t : Text) (a : Action)
    → (◌≡◌ {A = List Action} (if is_empty t then [] else a ∷ []) []) ↔ (t ≡ [])
verdict_iff [] a = (λ h. refl, λ h. refl)
verdict_iff (x ∷ t) a = (λ h. absurd (cc), λ h. absurd (cc))

enough_lines : (m n p : Text) (ps : List Text) → ltb (length (m ∷ p ∷ ps ++ n ∷ [])) 3 ≡ false
enough_lines m n p ps = ground (arith, length-append ps (n ∷ []))

silent_on_empty :
    (filename m n : Text) (lines : List Text) (p : Text) (ps : List Text)
    → lines ≡ p ∷ ps
    → (check_for_newline_at_eof filename (m ∷ lines ++ n ∷ []) ≡ []) ↔ (last_part lines ≡ [])
unfolding check_for_newline_at_eof
silent_on_empty filename m n lines p ps e = rw e (
    rw (enough_lines m n p ps, second_last_marker (p ∷ ps) n m)
      (verdict_iff (last_part (p ∷ ps)) _))

split_char-cons : (s : Text) → (p : Text) × (ps : List Text) × (split_char 10 s ≡ p ∷ ps)
unfolding split_char
split_char-cons [] = ([], [], refl)
split_char-cons (x ∷ s) =
    let (p, ps, e) = split_char-cons s in
    elim (Bool-cases (x == 10)) [
      | inl h ↦ ([], p ∷ ps, rw (h, e) refl)
      | inr h ↦ (x ∷ p, ps, rw (h, e) refl)
    ]

-- For the lines that the text of a file is split into, between the two markers, the check is silent
-- exactly when the text is empty or ends with a newline.
pub check_for_newline_at_eof-Ended :
    (filename text : Text)
    → (check_for_newline_at_eof filename (with_markers (split_char 10 text)) ≡ []) ↔ Ended text
check_for_newline_at_eof-Ended filename text =
    let (p, ps, e) = split_char-cons text in
    let (silent, empty) =
      silent_on_empty filename (codes "// marker so line numbers and indices both start at 1")
        (codes "// marker so line numbers end in a known way") (split_char 10 text) p ps e in
    unfold with_markers in
    (λ h. last-split-Ended text (silent h), λ h. empty (Ended-last-split text h))
