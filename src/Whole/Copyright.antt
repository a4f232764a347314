-- ===== src/Whole/Copyright.antt =====
-- Where the copyright check looks.
use dmanix.Base.{
  ℕ, zero, suc, ◌≤◌, ◌≡◌, refl, ◌↔◌, inl, inr, Bool, true, false, some, List, [], ◌∷◌, Text, any,
  take, get_elem?, Bool-cases, arith, if◌then◌else◌,
}
use dmanix.Lint.{Action}
use dmanix.Whole.{names_copyright, check_for_copyright}

-- A line among the first `n` that satisfies `p`.
abbrev FoundAt : (Text → Bool) → ℕ → List Text → ℕ → Type 0
FoundAt p n lines i = (suc i ≤ n) × ((l : Text) × (get_elem? lines i ≡ some l) × (p l ≡ true))

any-take_found :
    (p : Text → Bool) (n : ℕ) (lines : List Text)
    → any p (take n lines) ≡ true
    → (i : ℕ) × FoundAt p n lines i
unfolding any
any-take_found p zero lines h = absurd (cc)
any-take_found p (suc n) [] h = absurd (cc)
any-take_found p (suc n) (l ∷ lines) h = elim (Bool-cases (p l)) [
  | inl e ↦ (0, (omega arith, (l, refl, e)))
  | inr e ↦ let (i, (b, f)) = any-take_found p n lines (rw e at h) in (suc i, (omega (arith, b), f))
]

found_any-take :
    (p : Text → Bool) (n : ℕ) (lines : List Text) (i : ℕ)
    → FoundAt p n lines i
    → any p (take n lines) ≡ true
unfolding any
found_any-take p zero lines i h = absurd (omega (arith, h.0))
found_any-take p (suc n) [] i (b, (l, e, q)) = absurd (cc)
found_any-take p (suc n) (x ∷ lines) zero (b, (l, e, q)) = ground arith
found_any-take p (suc n) (x ∷ lines) (suc i) (b, (l, e, q)) =
    let rest = found_any-take p n lines i (omega (arith, b), (l, e, q)) in ground (arith, rest)

silent_iff :
    (b : Bool) (a : Action) → (◌≡◌ {A = List Action} (if b then [] else a ∷ []) []) ↔ (b ≡ true)
silent_iff true a = (λ h. refl, λ h. refl)
silent_iff false a = (λ h. absurd (cc), λ h. absurd (cc))

-- The check is silent exactly when one of the lines 1 to 10, counted from 0, is there and names a copyright.
pub check_for_copyright_iff :
    (filename marker : Text) (lines : List Text)
    → (check_for_copyright filename (marker ∷ lines) ≡ []) ↔ (
        (i : ℕ) × (1 ≤ i)
        × (i ≤ 10)
        × (l : Text) × (get_elem? (marker ∷ lines) i ≡ some l)
        × (names_copyright l ≡ true))
unfolding check_for_copyright
check_for_copyright_iff filename marker lines =
    let (silent, found) = silent_iff (any names_copyright (take 10 lines)) _ in
    (
      λ h.
          let (i, (b, (l, e, q))) = any-take_found names_copyright 10 lines (silent h) in
          (suc i, omega arith, b, l, e, q),
      λ (i, low, high, l, e, q). found (at_place i low high l e q),
    )
  where
    at_place :
        (i : ℕ)
        → 1 ≤ i
        → i ≤ 10
        → (l : Text) → get_elem? (marker ∷ lines) i ≡ some l
        → names_copyright l ≡ true
        → any names_copyright (take 10 lines) ≡ true
    at_place zero low high l e q = absurd (omega arith)
    at_place (suc i) low high l e q = found_any-take names_copyright 10 lines i (high, (l, e, q))
