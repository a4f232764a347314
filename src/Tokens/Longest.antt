-- ===== src/Tokens/Longest.antt =====
-- The tables of `CheckCheck`: the order of the macros, and the replacements.
use mathlib.Core.Bool.{false≢true}
use mathlib.Core.Option.{some-injective}
use dmanix.Base.{
  ◌≡◌, refl, sym, ap, ◌∙◌, inl, inr, Bool, true, false, not, ◌&&◌, Option, none, some, List, [],
  ◌∷◌, Text, all, is_some, Bool-cases, &&-true,
}
use dmanix.Base.Membership.{In}
use dmanix.Tokens.Macros.{
  CheckMacro, check_macros, contains, first_macro, operators, check_replacement,
}

all-In : {A : Type 0} (p : A → Bool) (xs : List A) (x : A) → all p xs ≡ true → In x xs → p x ≡ true
unfolding all
all-In p [] x h i = absurd i
all-In p (y ∷ xs) x h (inl e) = rw e (&&-true (p y) (all p xs) h).0
all-In p (y ∷ xs) x h (inr i) = all-In p xs x (&&-true (p y) (all p xs) h).1 i

not-true : (b : Bool) → not b ≡ true → b ≡ false
not-true true h = absurd (false≢true h)
not-true false h = refl

-- No name is a part of a later one.
abbrev is_part_of : CheckMacro → CheckMacro → Bool
is_part_of m n = contains n.name m.name

abbrev ordered : List CheckMacro → Bool
ordered [] = true
ordered (m ∷ ms) = all (λ n. not (is_part_of m n)) ms && ordered ms

first_macro-ordered :
    (ms : List CheckMacro) (raw_line : Text) (m n : CheckMacro)
    → ordered ms ≡ true
    → first_macro ms raw_line ≡ some m
    → In n ms
    → contains raw_line n.name ≡ true
    → contains n.name m.name ≡ true
    → n ≡ m
unfolding first_macro
first_macro-ordered [] raw_line m n o f i c p = absurd i
first_macro-ordered (x ∷ ms) raw_line m n o f i c p = elim (Bool-cases (contains raw_line x.name)) [
  | inl e ↦
      let k : ◌≡◌ {A = Option CheckMacro} (some x) (some m) = rw e at f in
      let same : x ≡ m = some-injective x m k in later same i
  | inr e ↦ elim i [
    | inl q ↦
        absurd (false≢true (sym e ∙ ap (λ (k : CheckMacro). contains raw_line k.name) (sym q) ∙ c))
    | inr j ↦
        first_macro-ordered ms raw_line m n
          (&&-true (all (λ k. not (is_part_of x k)) ms) (ordered ms) o).1 (rw e at f) j c p
  ]
]
  where
    later : x ≡ m → In n (x ∷ ms) → n ≡ m
    later same (inl q) = q ∙ same
    later same (inr j) =
        let rest = (&&-true (all (λ k. not (is_part_of x k)) ms) (ordered ms) o).0 in
        let apart = not-true (is_part_of x n) (all-In (λ k. not (is_part_of x k)) ms n rest j) in
        absurd (false≢true (sym apart ∙ ap (λ (k : CheckMacro). is_part_of k n) same ∙ p))

-- The macro that is found on a line is no part of another one: where the line contains a macro of the table
-- whose name has that of the found macro as a part, it is the found macro itself.
pub first_macro-longest :
    (raw_line : Text) (m n : CheckMacro)
    → first_macro check_macros raw_line ≡ some m
    → In n check_macros
    → contains raw_line n.name ≡ true
    → contains n.name m.name ≡ true
    → n ≡ m
first_macro-longest raw_line m n =
    first_macro-ordered check_macros raw_line m n (unfold all contains in refl)

some_of : {A : Type 0} (o : Option A) → is_some o ≡ true → (a : A) × (o ≡ some a)
some_of none h = absurd (false≢true h)
some_of (some a) h = (a, refl)

-- For each macro of the table and each operator that is looked for there is a replacement.
pub check_replacement-some :
    (m : CheckMacro) (operator : Text)
    → In m check_macros
    → In operator operators
    → (r : Text) × (check_replacement m operator ≡ some r)
check_replacement-some m operator i j =
    let total : all (λ k. all (λ o. is_some (check_replacement k o)) operators) check_macros
        ≡ true =
      unfold all check_replacement in refl in
    some_of (check_replacement m operator) (
      all-In (λ o. is_some (check_replacement m o)) operators operator
        (all-In (λ k. all (λ o. is_some (check_replacement k o)) operators) check_macros m total i)
        j)
