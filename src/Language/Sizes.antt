-- ===== src/Language/Sizes.antt =====
-- The tokens that `CheckLanguage` takes for compile-time constants, character by character.
use mathlib.Core.Bool.{false≢true}
use dmanix.Base.{
  ℕ, ◌≡◌, ◌⊎◌, ◌↔◌, refl, ap, ◌∙◌, inl, inr, Bool, true, false, not, ◌||◌, [], ◌∷◌, ◌++◌, Text,
  codes, is_nil_text, mem_char, All, ◌==◌, arith,
}
use dmanix.Regex.{Regex, star, group}
use dmanix.Regex.Chars.{◌⨾◌, ◌⊕◌, chr, lit, in_set, dot, word_char, plus, opt, digit, is_digit}
use dmanix.Regex.Means.{
  Begins, Begins-Char, Char-Begins, map-Asks, first-Asks, Means, Char, Chars, one-Means, seq-Means,
  alt-Means, empty-Means, group-Means, star-Means, Asks, star-Asks, seq-Asks, matches-iff-Asks,
}
use dmanix.Language.Arrays.{is_constant, upper_case, scoped, re_constant}

abbrev pub is_upper : ℕ → Bool
is_upper x = mem_char x (codes "ABCDEFGHIJKLMNOPQRSTUVWXYZ")

-- `k`, and then a capital or a digit.
abbrev pub CamelCase : Text → Type 0
CamelCase [] = ⊥
CamelCase (x ∷ s) = ((x == b'k') ≡ true) × (Begins is_upper s ⊎ Begins is_digit s)

abbrev pub ConstantName : Text → Type 0
ConstantName s = CamelCase s ⊎ Begins is_upper s

-- A part of at least one character, on one line, and `::` in front of the rest.
abbrev pub Scoped : (Text → Type 0) → Text → Type 0
Scoped p s =
    (x : ℕ) × (scope : Text) × (rest : Text) × (s ≡ x ∷ (scope ++ (codes "::" ++ rest)))
    × All (λ d. not (d == 10) ≡ true) (x ∷ scope)
    × p rest

abbrev pub ConstantToken : Text → Type 0
ConstantToken tok =
    (tok ≡ []) ⊎ (Begins is_digit tok ⊎ (ConstantName tok ⊎ Scoped ConstantName tok))

-- What re_constant asks, as the parts of the pattern say it.
abbrev Camel : Text → Type 0
Camel a =
    (m : Text) × Char (λ d. d == b'k') a m
    × ((t : Text) × (Char is_upper m t ⊎ Char is_digit m t) × Unit)

Camel-iff-CamelCase : (s : Text) → Camel s ↔ CamelCase s
Camel-iff-CamelCase s = (reads s, goes s)
  where
    kind :
        (m t : Text) → Char is_upper m t ⊎ Char is_digit m t → Begins is_upper m ⊎ Begins is_digit m
    kind m t (inl h) = inl (Begins-Char is_upper m t h)
    kind m t (inr h) = inr (Begins-Char is_digit m t h)

    reads : (s : Text) → Camel s → CamelCase s
    reads [] (m, (x, e, h), more) = absurd (cc)
    reads (y ∷ s) (m, (x, e, h), (t, o, _)) =
        let same : y ≡ x = cc in let rest : s ≡ m = cc in (rw same h, rw rest (kind m t o))

    goes : (s : Text) → CamelCase s → Camel s
    goes [] h = absurd h
    goes (x ∷ s) (k, inl h) =
        let (t, c) = Char-Begins is_upper s h in (s, (x, refl, k), (t, inl c, tt))
    goes (x ∷ s) (k, inr h) =
        let (t, c) = Char-Begins is_digit s h in (s, (x, refl, k), (t, inr c, tt))

camel-Asks : Asks re_constant CamelCase
camel-Asks =
    map-Asks re_constant Camel CamelCase
      (seq-Asks (one-Means (λ d. d == b'k'))
        (seq-Asks (alt-Means (one-Means is_upper) (one-Means is_digit)) (star-Asks word_char)))
      Camel-iff-CamelCase

-- What stands in front of a name, or nothing.
abbrev IsScope : Text → Text → Type 0
IsScope a b =
    ((m : Text) × ((n : Text) × Char (λ d. not (d == 10)) a n × Chars (λ d. not (d == 10)) n m)
      × ((n : Text) × Char (λ d. d == b':') m n × Char (λ d. d == b':') n b))
    ⊎ (a ≡ b)

IsScope-Means : Means (opt (group 1 (plus dot ⨾ lit "::"))) IsScope
IsScope-Means =
    alt-Means
      (group-Means 1 (
        seq-Means (seq-Means (one-Means _) (star-Means _)) (seq-Means (one-Means _) (one-Means _))))
      empty-Means

equal : (x y : ℕ) → (x == y) ≡ true → x ≡ y
equal x y h = ground arith

Scoped-iff : (p : Text → Type 0) (s : Text) → ((m : Text) × IsScope s m × p m) ↔ (p s ⊎ Scoped p s)
Scoped-iff p s = (reads, goes)
  where
    reads : ((m : Text) × IsScope s m × p m) → p s ⊎ Scoped p s
    reads (m, inr e, h) = inl (rw e h)
    reads (m, inl (b, (n, (x, e, h), (read, f, all)), (k, (y, g, i), (z, j, l))), a) =
        let colon : y ≡ b':' = equal y b':' i in
        let second : z ≡ b':' = equal z b':' l in
        let behind : b ≡ codes "::" ++ m = rw (g, j, colon, second) refl in
        inr (
          x,
          read,
          m,
          e ∙ ap (λ (t : Text). x ∷ t) (f ∙ ap (λ (t : Text). read ++ t) behind),
          (h, all),
          a,
        )

    goes : p s ⊎ Scoped p s → (m : Text) × IsScope s m × p m
    goes (inl a) = (s, inr refl, a)
    goes (inr (x, scope, rest, e, all, a)) = (
      rest,
      inl (
        codes "::" ++ rest,
        (scope ++ (codes "::" ++ rest), (x, e, all.0), (scope, refl, all.1)),
        (b':' ∷ rest, (b':', refl, refl), (b':', refl, refl)),
      ),
      a,
    )

scoped-Asks : (r : Regex) (p : Text → Type 0) → Asks r p → Asks (scoped r) (λ s. p s ⊎ Scoped p s)
scoped-Asks r p h =
    map-Asks (scoped r) (λ a. (m : Text) × IsScope a m × p m) (λ s. p s ⊎ Scoped p s)
      (seq-Asks IsScope-Means h) (Scoped-iff p)

or_iff : {A B : Type 0} (a b : Bool) → (a ≡ true) ↔ A → (b ≡ true) ↔ B → ((a || b) ≡ true) ↔ (A ⊎ B)
or_iff true b h k = (λ e. inl (h.0 refl), λ o. refl)
or_iff false b h k =
    (λ e. inr (k.0 e), λ o. elim o [ inl a ↦ absurd (false≢true (h.1 a)) | inr r ↦ k.1 r ])

nil_iff : (s : Text) → (is_nil_text s ≡ true) ↔ (s ≡ [])
nil_iff [] = (λ h. refl, λ h. refl)
nil_iff (x ∷ s) = (λ h. absurd (cc), λ h. absurd (cc))

-- 0[xX][0-9a-fA-F]+
abbrev Hexadecimal : Text → Type 0
Hexadecimal a =
    (m : Text) × Char (λ d. d == b'0') a m
    × ((t : Text) × Char (λ d. mem_char d (codes "xX")) m t
        × Begins (λ d. mem_char d (codes "0123456789abcdefABCDEF")) t)

Hexadecimal-Asks :
    Asks (chr b'0' ⨾ in_set "xX" ⨾ plus (in_set "0123456789abcdefABCDEF")) Hexadecimal
Hexadecimal-Asks = seq-Asks (one-Means _) (seq-Asks (one-Means _) (first-Asks _ _))

Hexadecimal-digit : (s : Text) → Hexadecimal s → Begins is_digit s
Hexadecimal-digit [] (m, (x, e, h), more) = absurd (cc)
Hexadecimal-digit (y ∷ s) (m, (x, e, h), more) = let same : y ≡ x = cc in rw same (ground arith)

-- The six tests one by one.
abbrev Tests : Text → Type 0
Tests tok =
    (((((tok ≡ []) ⊎ Begins is_digit tok) ⊎ Hexadecimal tok) ⊎ CamelCase tok)
      ⊎ (CamelCase tok ⊎ Scoped CamelCase tok))
    ⊎ (Begins is_upper tok ⊎ Scoped (Begins is_upper) tok)

is_constant-iff-Tests : (tok : Text) → (is_constant tok ≡ true) ↔ Tests tok
unfolding is_constant
is_constant-iff-Tests tok =
    let digits = matches-iff-Asks (plus digit) (Begins is_digit) tok (first-Asks is_digit digit) in
    let numbers =
      matches-iff-Asks (chr b'0' ⨾ in_set "xX" ⨾ plus (in_set "0123456789abcdefABCDEF")) Hexadecimal
        tok Hexadecimal-Asks in
    let names = matches-iff-Asks re_constant CamelCase tok camel-Asks in
    let scoped_names =
      matches-iff-Asks (scoped re_constant) (λ s. CamelCase s ⊎ Scoped CamelCase s) tok
        (scoped-Asks re_constant CamelCase camel-Asks) in
    let capitals =
      matches-iff-Asks (scoped (upper_case ⨾ star (upper_case ⊕ digit ⊕ chr b'_')))
        (λ s. Begins is_upper s ⊎ Scoped (Begins is_upper) s) tok
        (scoped-Asks (upper_case ⨾ star (upper_case ⊕ digit ⊕ chr b'_')) (Begins is_upper)
          (first-Asks is_upper (upper_case ⊕ digit ⊕ chr b'_'))) in
    or_iff _ _
      (or_iff _ _ (or_iff _ _ (or_iff _ _ (or_iff _ _ (nil_iff tok) digits) numbers) names)
        scoped_names)
      capitals

-- A token, without the parentheses around it, passes for a compile-time constant exactly when it is empty, or it
-- begins with a digit, or with a capital, or with `k` and a capital or a digit, or has one of the last two behind
-- `::` and at least one character without a line feed in front of that.
pub is_constant-iff-ConstantToken : (tok : Text) → (is_constant tok ≡ true) ↔ ConstantToken tok
is_constant-iff-ConstantToken tok =
    (λ h. reads ((is_constant-iff-Tests tok).0 h), λ h. (is_constant-iff-Tests tok).1 (goes h))
  where
    reads : Tests tok → ConstantToken tok
    reads (inl (inl (inl (inl (inl e))))) = inl e
    reads (inl (inl (inl (inl (inr d))))) = inr (inl d)
    reads (inl (inl (inl (inr h)))) = inr (inl (Hexadecimal-digit tok h))
    reads (inl (inl (inr k))) = inr (inr (inl (inl k)))
    reads (inl (inr (inl k))) = inr (inr (inl (inl k)))
    reads (inl (inr (inr (x, scope, rest, e, all, k)))) =
        inr (inr (inr (x, scope, rest, e, all, inl k)))
    reads (inr (inl u)) = inr (inr (inl (inr u)))
    reads (inr (inr (x, scope, rest, e, all, u))) = inr (inr (inr (x, scope, rest, e, all, inr u)))

    goes : ConstantToken tok → Tests tok
    goes (inl e) = inl (inl (inl (inl (inl e))))
    goes (inr (inl d)) = inl (inl (inl (inl (inr d))))
    goes (inr (inr (inl (inl k)))) = inl (inl (inr k))
    goes (inr (inr (inl (inr u)))) = inr (inl u)
    goes (inr (inr (inr (x, scope, rest, e, all, inl k)))) =
        inl (inr (inr (x, scope, rest, e, all, k)))
    goes (inr (inr (inr (x, scope, rest, e, all, inr u)))) = inr (inr (x, scope, rest, e, all, u))
