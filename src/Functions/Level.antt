-- ===== src/Functions/Level.antt =====
-- The confidence of a report on a long function.
use dmanix.Base.{
  ℕ, zero, suc, ◌*◌, ◌/◌, ◌^◌, ◌≤◌, ◌<◌, ◌≡◌, refl, Option, none, some, List, [], ◌∷◌, Text, codes,
  lt→ltb, ltb→lt, Bool-cases, inl, inr, arith, true, false, ◌↔◌, ltb, ◌==◌, if◌then◌else◌,
}
use native.Mathlib.Nat.{pow-suc, le-div_iff_mul-le, div-lt_iff_lt-mul, div-eq_of_lt}
use dmanix.Base.Int.{ℤ, pos, negsuc}
use dmanix.Lint.{Action, report}
use dmanix.Functions.{
  FunctionState, base_trigger, trigger, log2_from, log2, cap_level, error_level, size_message,
  check_function,
}

pow_two : (v : ℕ) → 2 ^ suc v ≡ 2 * 2 ^ v
pow_two v = rw pow-suc (omega arith)

pow_pos : (v : ℕ) → 1 ≤ 2 ^ v
pow_pos zero = omega arith
pow_pos (suc v) = omega (arith, pow_two v, pow_pos v)

-- The halving loop has enough fuel, and counts at least `v` halvings of a number from 2 ^ v on.
log2_from-ge : (fuel v n : ℕ) → n ≤ fuel → 2 ^ v ≤ n → v ≤ log2_from fuel n
unfolding log2_from
log2_from-ge fuel zero n f h = omega arith
log2_from-ge zero (suc v) n f h = absurd (omega (arith, pow_pos (suc v)))
log2_from-ge (suc fuel) (suc v) n f h =
    ground (arith, log2_from-ge fuel v (n / 2), pow_two v, pow_pos v)

-- And no more than the number allows.
log2_from-le : (fuel n : ℕ) → 1 ≤ n → 2 ^ log2_from fuel n ≤ n
unfolding log2_from
log2_from-le zero n h = omega arith
log2_from-le (suc fuel) n h =
    ground (arith, log2_from-le fuel (n / 2), pow_two (log2_from fuel (n / 2)))

quotient_ge : (v b n : ℕ) → 1 ≤ b → b * 2 ^ v < n → 2 ^ v ≤ n / b
quotient_ge v b n p h = (le-div_iff_mul-le p).1 (omega arith)

base_pos : (s : FunctionState) → 1 ≤ base_trigger s
unfolding base_trigger
base_pos s = ground arith

log2-ge : (v n : ℕ) → 2 ^ v ≤ n → v ≤ log2 n
unfolding log2
log2-ge v n h = log2_from-ge n v n (omega arith) h

quotient :
    (v : ℕ) (s : FunctionState)
    → trigger (pos v) s < s.lines_in_function
    → 2 ^ v ≤ s.lines_in_function / base_trigger s
unfolding trigger
quotient v s h = quotient_ge v (base_trigger s) s.lines_in_function (base_pos s) h

not_zero : (n : ℕ) → 1 ≤ n → (n == 0) ≡ false
not_zero n h = ground arith

cap_le : (n : ℕ) → cap_level n ≤ 5
cap_le n = ground arith

capped : (v n : ℕ) → v ≤ 5 → v ≤ n → v ≤ cap_level n
capped v n h k = ground arith

-- A function over the trigger of a verbosity level from 0 to 5 is reported with a confidence of at least that
-- level and of at most 5, so that its report is never held back for its confidence; and the
-- quotient whose logarithm is taken is not zero.
pub check_function-level :
    (filename : Text) (linenum verbose_level : ℕ) (s : FunctionState)
    → verbose_level ≤ 5
    → trigger (pos verbose_level) s < s.lines_in_function
    → (check_function filename linenum (pos verbose_level) s
        ≡ some (
            report filename linenum
              (codes "readability/fn_size")
              (error_level s)
              (size_message (pos verbose_level) s)
            ∷ []))
      × (verbose_level ≤ error_level s)
      × (error_level s ≤ 5)
      × (1 ≤ s.lines_in_function / base_trigger s)
check_function-level filename linenum verbose_level s v h =
    let at_least_one : 1 ≤ s.lines_in_function / base_trigger s =
      omega (arith, pow_pos verbose_level, quotient verbose_level s h) in
    let one : (s.lines_in_function / base_trigger s == 0) ≡ false = not_zero _ at_least_one in
    (
      unfold check_function in rw (lt→ltb _ _ h, one),
      unfold error_level in
          capped verbose_level (log2 (s.lines_in_function / base_trigger s)) v (
            log2-ge verbose_level (s.lines_in_function / base_trigger s)
              (quotient verbose_level s h)),
      unfold error_level in cap_le (log2 (s.lines_in_function / base_trigger s)),
      at_least_one,
    )

-- The levels at which the check of a function raises an exception.
abbrev pub Raises : ℤ → FunctionState → Type 0
Raises (pos v) s = ⊥
Raises (negsuc v) s =
    (base_trigger s < s.lines_in_function * 2 ^ suc v) × (s.lines_in_function < base_trigger s)

no_some : (x : List Action) → ◌≡◌ {A = Option (List Action)} (some x) none → ⊥
no_some x e = cc

zero_of : (n : ℕ) → (n == 0) ≡ true → n ≡ 0
zero_of n e = ground arith

raises_at :
    (b n t : ℕ) (x : List Action)
    → 1 ≤ b
    → ((if ltb t n then (if n / b == 0 then none else some x) else some []) ≡ none)
      ↔ ((t < n) × (n < b))
raises_at b n t x p =
    let q = le-div_iff_mul-le {k = b} {x = 1} {y = n} p in
    let fewer : (n / b ≡ 0) → n < b = λ e. elim (Bool-cases (ltb n b)) [
      | inl h ↦ ltb→lt n b h
      | inr h ↦ absurd (let k = q.1 (ground arith) in omega (arith))
    ] in
    (
      λ e. elim (Bool-cases (ltb t n)) [
        | inl l ↦ (
          ltb→lt t n l,
          elim (Bool-cases (n / b == 0)) [
            | inl z ↦ fewer (zero_of _ z)
            | inr z ↦ absurd (no_some x (rw (l, z) at e))
          ],
        )
        | inr l ↦ absurd (no_some [] (rw l at e))
      ],
      λ h. rw (lt→ltb t n h.0, div-eq_of_lt h.1) refl,
    )

-- The check of a function's length raises a ValueError exactly when the level is negative and the function's lines
-- are more than the trigger of that level, which is the base trigger over a power of two, and fewer than the base
-- trigger; at a level that is not negative it never does.
pub check_function-iff-Raises :
    (filename : Text) (linenum : ℕ) (verbose_level : ℤ) (s : FunctionState)
    → (check_function filename linenum verbose_level s ≡ none) ↔ Raises verbose_level s
unfolding check_function
check_function-iff-Raises filename linenum (pos v) s =
    let r = raises_at (base_trigger s) s.lines_in_function (trigger (pos v) s) _ (base_pos s) in
    (
      λ e. let h = r.0 e in absurd (omega (arith, pow_pos v, quotient v s h.0, div-eq_of_lt h.1)),
      λ h. absurd h,
    )
check_function-iff-Raises filename linenum (negsuc v) s =
    let r = raises_at (base_trigger s) s.lines_in_function (trigger (negsuc v) s) _ (base_pos s) in
    let d =
      div-lt_iff_lt-mul {k = 2 ^ suc v} {x = base_trigger s} {y = s.lines_in_function}
        (pow_pos (suc v)) in
    unfold trigger in (λ e. (d.0 (r.0 e).0, (r.0 e).1), λ h. r.1 (d.1 h.0, h.1))
