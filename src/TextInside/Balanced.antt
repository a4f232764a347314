-- ===== src/TextInside/Balanced.antt =====
-- `_GetTextInside` against the balanced texts.
use mathlib.Core.Path.{subst}
use dmanix.Base.{
  ℕ, zero, suc, ◌+◌, ◌-◌, ◌<◌, ◌≡◌, ◌↔◌, refl, sym, ap, ◌∙◌, inl, inr, true, false, Option, none,
  some, List, [], ◌∷◌, ◌++◌, append_assoc, Text, length, length-append, take, take_prefix,
  map_option, ◌==◌, ==_iff, ==_refl, Bool-cases, Option-cases, arith,
}
use dmanix.Regex.{Regex}
use dmanix.Regex.Search.{Found, search_in}
use dmanix.TextInside.{
  TextInside, closing_of, is_closing, read_inside, text_inside, nothing_inside, assertion_fails,
  inside_from, opened_by, get_text_inside,
}

-- Every opening punctuation is closed by its own closing one.
pub data Balanced : Text → Type 0 where
  b_nil : Balanced []
  b_plain :
      {c : ℕ} {s : Text}
      → closing_of c ≡ none
      → is_closing c ≡ false
      → Balanced s
      → Balanced (c ∷ s)
  b_pair :
      (o : ℕ) {z : ℕ} {t s : Text}
      → closing_of o ≡ some z
      → Balanced t
      → Balanced s
      → Balanced (o ∷ t ++ z ∷ s)

abbrev Pair : ℕ → ℕ → Type 0
Pair o z = (is_closing o ≡ false) × ((is_closing z ≡ true) × (closing_of z ≡ none))

-- What follows from the table of punctuations.
closing_of-Pair : (o z : ℕ) → closing_of o ≡ some z → Pair o z
closing_of-Pair o z h = ground arith

closing_apart : (c z : ℕ) → is_closing c ≡ false → is_closing z ≡ true → (c == z) ≡ false
closing_apart c z h k = ground arith

-- Balanced text leaves the stack as it is.
read_inside-Balanced :
    (t rest : Text) (z : ℕ) (stack : List ℕ) (k : ℕ)
    → is_closing z ≡ true
    → Balanced t
    → read_inside (z ∷ stack) rest ≡ some k
    → read_inside (z ∷ stack) (t ++ rest) ≡ some (length t + k)
unfolding read_inside
read_inside-Balanced t rest z stack k y b_nil h = h ∙ ap (λ (j : ℕ). some j) (omega arith)
read_inside-Balanced t rest z stack k y (b_plain {c = c} {s = s} n e b) h =
    rw (closing_apart c z e y, e, n, read_inside-Balanced s rest z stack k y b h)
      (ap (λ (j : ℕ). some j) (omega arith))
read_inside-Balanced t rest z stack k y (b_pair o {z = w} {t = u} {s = s} p b d) h =
    let (e, (v, _)) = closing_of-Pair o w p in
    let outer = read_inside-Balanced s rest z stack k y d h in
    let closed : read_inside (w ∷ z ∷ stack) (w ∷ s ++ rest) ≡ some (suc (length s + k)) =
      rw (==_refl w, outer) refl in
    let inner =
      read_inside-Balanced u (w ∷ s ++ rest) w (z ∷ stack) (suc (length s + k)) v b closed in
    let joined = append_assoc u (w ∷ s) rest in
    rw (closing_apart o z e y, e, p, joined, inner)
      (ap (λ (j : ℕ). some j) (omega (arith, length-append u (w ∷ s))))

-- A reading that ends stops at the closing punctuation of a balanced text.
record Split (z : ℕ) (stack : List ℕ) (s : Text) : Type 0 where
  inner : Text
  rest : Text
  count : ℕ
  parts : s ≡ inner ++ z ∷ rest
  balanced : Balanced inner
  goes_on : read_inside stack rest ≡ some count

suc_back : (o : Option ℕ) (n : ℕ) → map_option suc o ≡ some n → (k : ℕ) × (o ≡ some k)
suc_back none n h = absurd (cc)
suc_back (some k) n h = (k, refl)

plain_Split :
    (c z : ℕ) (stack : List ℕ) (s : Text)
    → closing_of c ≡ none
    → is_closing c ≡ false
    → Split z stack s
    → Split z stack (c ∷ s)
plain_Split c z stack s n e v = record {
  inner = c ∷ v.inner;
  rest = v.rest;
  count = v.count;
  parts = ap (λ (t : Text). c ∷ t) v.parts;
  balanced = b_plain n e v.balanced;
  goes_on = v.goes_on;
}

pair_Split :
    (o w z : ℕ) (stack : List ℕ) (s : Text)
    → closing_of o ≡ some w
    → (v : Split w (z ∷ stack) s) → Split z stack v.rest
    → Split z stack (o ∷ s)
pair_Split o w z stack s p v u = record {
  inner = o ∷ v.inner ++ w ∷ u.inner;
  rest = u.rest;
  count = u.count;
  parts =
      ap (λ (t : Text). o ∷ t)
        (v.parts
          ∙ ap (λ (t : Text). v.inner ++ w ∷ t) u.parts
          ∙ sym (append_assoc v.inner (w ∷ u.inner) (z ∷ u.rest)));
  balanced = b_pair o p v.balanced u.balanced;
  goes_on = u.goes_on;
}

read_inside-Split :
    (fuel z : ℕ) (stack : List ℕ) (s : Text) (n : ℕ)
    → length s < fuel
    → read_inside (z ∷ stack) s ≡ some n
    → Split z stack s
unfolding read_inside
read_inside-Split zero z stack s n f h = absurd (omega arith)
read_inside-Split (suc fuel) z stack [] n f h = absurd (cc)
read_inside-Split (suc fuel) z stack (c ∷ s) n f h = elim (Bool-cases (c == z)) [
  | inl e ↦
      let (k, r) = suc_back (read_inside stack s) n (rw e at h) in
      record {
        inner = [];
        rest = s;
        count = k;
        parts = rw ((==_iff c z).0 e) refl;
        balanced = b_nil;
        goes_on = r;
      }
  | inr e ↦ elim (Bool-cases (is_closing c)) [
    | inl g ↦ absurd (cc (let k : ◌≡◌ {A = Option ℕ} none (some n) = rw (e, g) at h in k))
    | inr g ↦ elim (Option-cases (closing_of c)) [
      | inl p ↦
          let (k, r) = suc_back (read_inside (z ∷ stack) s) n (rw (e, g, p) at h) in
          plain_Split c z stack s p g (read_inside-Split fuel z stack s k (omega (arith, f)) r)
      | inr (w, p) ↦
          let (k, r) = suc_back (read_inside (w ∷ z ∷ stack) s) n (rw (e, g, p) at h) in
          let v = read_inside-Split fuel w (z ∷ stack) s k (omega (arith, f)) r in
          let shorter : length v.rest < fuel =
            omega
              (arith, f, ap (λ (t : Text). length t) v.parts, length-append v.inner (w ∷ v.rest)) in
          pair_Split c w z stack s p v
            (read_inside-Split fuel z stack v.rest v.count shorter v.goes_on)
    ]
  ]
]

read_whole :
    (t rest : Text) (z : ℕ)
    → is_closing z ≡ true
    → Balanced t
    → read_inside (z ∷ []) (t ++ z ∷ rest) ≡ some (length t + 1)
read_whole t rest z y b =
    let last : read_inside (z ∷ []) (z ∷ rest) ≡ some 1 =
      unfold read_inside in rw (==_refl z) refl in
    read_inside-Balanced t (z ∷ rest) z [] 1 y b last

taken_back : (t rest : Text) → take (length t + 1 - 1) (t ++ rest) ≡ t
taken_back t rest = let n : length t + 1 - 1 ≡ length t = omega arith in rw n (take_prefix t rest)

whole_Split : (s : Text) (z n : ℕ) → read_inside (z ∷ []) s ≡ some n → Split z [] s
whole_Split s z n e = read_inside-Split (suc (length s)) z [] s n (omega arith) e

inside_Balanced :
    (s t rest : Text) (z : ℕ)
    → is_closing z ≡ true
    → Balanced t
    → s ≡ t ++ z ∷ rest
    → inside_from (some z) s ≡ text_inside t
inside_Balanced s t rest z y b e =
    rw e (rw (read_whole t rest z y b) (ap (λ (u : Text). text_inside u) (taken_back t (z ∷ rest))))

abbrev text_of : TextInside → Text
text_of (text_inside t) = t
text_of nothing_inside = []
text_of assertion_fails = []

Balanced-inside :
    (s t : Text) (z : ℕ)
    → is_closing z ≡ true
    → inside_from (some z) s ≡ text_inside t
    → Balanced t × ((rest : Text) × (s ≡ t ++ z ∷ rest))
Balanced-inside s t z y h = elim (Option-cases (read_inside (z ∷ []) s)) [
  | inl e ↦
      absurd (cc (let k : ◌≡◌ {A = TextInside} nothing_inside (text_inside t) = rw e at h in k))
  | inr (n, e) ↦
      let v : Split z [] s = whole_Split s z n e in
      let found = inside_Balanced s v.inner v.rest z y v.balanced v.parts in
      let same : v.inner ≡ t = ap text_of (sym found ∙ h) in
      (subst Balanced same v.balanced, (v.rest, v.parts ∙ rw same refl))
]

closing_of-closing : (o z : ℕ) → closing_of o ≡ some z → is_closing z ≡ true
closing_of-closing o z h = (closing_of-Pair o z h).1.0

opened_by-closing : (s : Text) (z : ℕ) → opened_by s ≡ some z → is_closing z ≡ true
opened_by-closing [] z h = absurd (cc)
opened_by-closing (c ∷ s) z h = closing_of-closing c z h

-- Where the pattern is found and the match ends with an opening punctuation, the function returns a text
-- exactly when it is balanced and its closing punctuation follows it behind the match.
pub get_text_inside-iff-Balanced :
    (text : Text) (start_pattern : Regex) (m : Found) (z : ℕ) (t : Text)
    → search_in start_pattern text ≡ some m
    → opened_by m.to.before ≡ some z
    → (get_text_inside text start_pattern ≡ text_inside t)
      ↔ (Balanced t × ((rest : Text) × (m.to.after ≡ t ++ z ∷ rest)))
unfolding get_text_inside
get_text_inside-iff-Balanced text start_pattern m z t found opened =
    let y = opened_by-closing m.to.before z opened in
    rw (found, opened)
      (
        λ h. Balanced-inside m.to.after t z y h,
        λ (b, (rest, e)). inside_Balanced m.to.after t rest z y b e,
      )
