-- ===== src/Repository/Guards.antt =====
-- The characters of a header guard.
use dmanix.Base.{
  ℕ, suc, ◌-◌, ◌≡◌, refl, inl, inr, Bool, true, false, ◌&&◌, ◌||◌, [], ◌∷◌, ◌++◌, All, Text, codes,
  length, leb, mem_char, to_upper, upper, is_ascii_space, Bool-cases, arith,
}
use dmanix.Regex.{one, results}
use dmanix.Regex.Search.{match_at, sub_from, sub}
use dmanix.Repository.{re_separator, guard_of}

abbrev pub is_separator : ℕ → Bool
is_separator c = mem_char c (codes "-./") || is_ascii_space c

abbrev pub is_lower : ℕ → Bool
is_lower c = leb b'a' c && leb c b'z'

sub_hit :
    (p : ℕ → Bool) (new before s : Text) (x : ℕ)
    → p x ≡ true
    → sub_from (one p) new 0 before (x ∷ s) ≡ new ++ sub_from (one p) new 0 (x ∷ before) s
unfolding sub_from match_at results
sub_hit p new before s x e =
    let one_read : suc (length s) - length s ≡ 1 = omega arith in
    rw (e, sub_from) (rw one_read refl)

sub_miss :
    (p : ℕ → Bool) (new before s : Text) (x : ℕ)
    → p x ≡ false
    → sub_from (one p) new 0 before (x ∷ s) ≡ x ∷ sub_from (one p) new 0 (x ∷ before) s
unfolding sub_from match_at results
sub_miss p new before s x e = rw (e, sub_from) refl

All-append : (P : ℕ → Type 0) (s t : Text) → All P s → All P t → All P (s ++ t)
All-append P [] t a b = b
All-append P (x ∷ s) t a b = (a.0, All-append P s t a.1 b)

-- A substitution for each character of a set leaves none of them.
sub_one :
    (p : ℕ → Bool) (new before s : Text)
    → All (λ x. p x ≡ false) new
    → All (λ x. p x ≡ false) (sub_from (one p) new 0 before s)
sub_one p new before [] h = unfold sub_from in tt
sub_one p new before (x ∷ s) h =
    let rest = sub_one p new (x ∷ before) s h in
    elim (Bool-cases (p x)) [
      | inl e ↦ rw (sub_hit p new before s x e) (All-append (λ x. p x ≡ false) new _ h rest)
      | inr e ↦ rw (sub_miss p new before s x e) ((e, rest))
    ]

upper_char :
    (c : ℕ) → is_separator c ≡ false → (is_separator (to_upper c) || is_lower (to_upper c)) ≡ false
unfolding to_upper mem_char is_ascii_space
upper_char c h = ground arith

upper-All :
    (s : Text)
    → All (λ x. is_separator x ≡ false) s
    → All (λ x. (is_separator x || is_lower x) ≡ false) (upper s ++ codes "_")
unfolding upper
upper-All [] h = (unfold mem_char is_ascii_space in refl, tt)
upper-All (x ∷ s) h = (upper_char x h.0, upper-All s h.1)

-- The guard of every repository name is without white space, `-`, `.`, `/` and small letters.
pub guard_of-All :
    (repository_name : Text)
    → All (λ x. (is_separator x || is_lower x) ≡ false) (guard_of repository_name)
guard_of-All repository_name =
    let free : is_separator b'_' ≡ false = unfold mem_char is_ascii_space in refl in
    unfold guard_of in
    upper-All (sub re_separator (codes "_") repository_name)
      (unfold sub in sub_one is_separator (codes "_") [] repository_name (free, tt))
