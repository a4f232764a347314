-- ===== src/Base/TextLaws.antt =====
-- What the text operations decide: equality, prefixes, suffixes, the first occurrence.
use mathlib.Core.List.{reverse-append, reverse-reverse}
use mathlib.Core.Bool.{false≢true}
use mathlib.Core.Path.{◌≡⟨◌⟩◌, ◌∎}
use dmanix.Base.{
  ℕ, ◌≡◌, refl, sym, ap, ◌↔◌, ◌≢◌, inl, inr, Bool, true, false, some, List, [], ◌∷◌, ◌++◌, reverse,
  arith, Text, text_eq, after_prefix, starts_with, before_suffix, ends_with, ◌==◌, ==_iff,
  Bool-cases, Option-cases, if◌then◌else◌, split_char, cons_part, join,
}

pub text_eq→eq : (s t : Text) → text_eq s t ≡ true → s ≡ t
unfolding text_eq
text_eq→eq [] [] h = refl
text_eq→eq [] (_ ∷ _) h = ground arith
text_eq→eq (_ ∷ _) [] h = ground arith
text_eq→eq (a ∷ s) (b ∷ t) h = ground (arith, text_eq→eq s t)

pub text_eq_refl : (s : Text) → text_eq s s ≡ true
unfolding text_eq
text_eq_refl [] = refl
text_eq_refl (a ∷ s) = ground (arith, text_eq_refl s)

pub text_eq_iff : (s t : Text) → (text_eq s t ≡ true) ↔ (s ≡ t)
text_eq_iff s t = (text_eq→eq s t, λ e. rw e (text_eq_refl t))

pub after_prefix_sound : (s p r : Text) → after_prefix s p ≡ some r → s ≡ p ++ r
unfolding after_prefix
after_prefix_sound s [] r h = cc
after_prefix_sound [] (_ ∷ _) r h = cc
after_prefix_sound (c ∷ s) (d ∷ p) r h = ground (arith, after_prefix_sound s p r)

pub after_prefix_complete : (p r : Text) → after_prefix (p ++ r) p ≡ some r
unfolding after_prefix
after_prefix_complete [] r = refl
after_prefix_complete (d ∷ p) r = ground (arith, after_prefix_complete p r)

-- A text starts with `p` exactly when it is `p` and a rest.
pub starts_with_sound : (s p : Text) → starts_with s p ≡ true → (r : Text) × (s ≡ p ++ r)
unfolding starts_with
starts_with_sound s p h = elim (Option-cases (after_prefix s p)) [
  | inl e ↦ absurd (false≢true (rw e at h))
  | inr (r, e) ↦ (r, after_prefix_sound s p r e)
]

pub starts_with_complete : (p r : Text) → starts_with (p ++ r) p ≡ true
unfolding starts_with
starts_with_complete p r = rw (after_prefix_complete p r)

mirror : (s p q : Text) → reverse s ≡ reverse p ++ q → s ≡ reverse q ++ p
mirror s p q h =
    s
    ≡⟨ sym (reverse-reverse s) ⟩ reverse (reverse s)
    ≡⟨ ap reverse h ⟩ reverse (reverse p ++ q)
    ≡⟨ reverse-append (reverse p) q ⟩ reverse q ++ reverse (reverse p)
    ≡⟨ ap (λ (t : Text). reverse q ++ t) (reverse-reverse p) ⟩ reverse q ++ p ∎

pub before_suffix_sound : (s p r : Text) → before_suffix s p ≡ some r → s ≡ r ++ p
unfolding before_suffix
before_suffix_sound s p r h = elim (Option-cases (after_prefix (reverse s) (reverse p))) [
  | inl e ↦ ground arith
  | inr (q, e) ↦
      let k : reverse q ≡ r = ground arith in
      cc (k, mirror s p q (after_prefix_sound (reverse s) (reverse p) q e))
]

pub before_suffix_complete : (r p : Text) → before_suffix (r ++ p) p ≡ some r
before_suffix_complete r p =
    let e : after_prefix (reverse (r ++ p)) (reverse p) ≡ some (reverse r) =
      rw reverse-append (after_prefix_complete (reverse p) (reverse r)) in
    unfold before_suffix in rw (e, before_suffix) (rw reverse-reverse)

-- A text ends with `p` exactly when it is a front part and `p`.
pub ends_with_sound : (s p : Text) → ends_with s p ≡ true → (r : Text) × (s ≡ r ++ p)
unfolding ends_with
ends_with_sound s p h = elim (Option-cases (before_suffix s p)) [
  | inl e ↦ absurd (false≢true (rw e at h))
  | inr (r, e) ↦ (r, before_suffix_sound s p r e)
]

pub ends_with_complete : (r p : Text) → ends_with (r ++ p) p ≡ true
unfolding ends_with
ends_with_complete r p = rw (before_suffix_complete r p)

join-cons_part : (sep : Text) (d : ℕ) (ps : List Text) → join sep (cons_part d ps) ≡ d ∷ join sep ps
unfolding join
join-cons_part sep d [] = refl
join-cons_part sep d (p ∷ []) = refl
join-cons_part sep d (p ∷ q ∷ ps) = refl

split-ne-nil : (c : ℕ) (s : Text) → split_char c s ≢ []
unfolding split_char
split-ne-nil c [] h = cc
split-ne-nil c (d ∷ s) h = go (split_char c s) (d == c) h
  where
    go : (ps : List Text) (b : Bool) → (if b then [] ∷ ps else cons_part d ps) ≢ []
    go ps true h = cc
    go [] false h = cc
    go (p ∷ ps) false h = cc

join-nil_part : (sep : Text) (ps : List Text) → ps ≢ [] → join sep ([] ∷ ps) ≡ sep ++ join sep ps
unfolding join
join-nil_part sep [] h = absurd (h refl)
join-nil_part sep (p ∷ ps) h = refl

-- Joining what `split` took apart gives the text back.
pub join-split : (c : ℕ) (s : Text) → join (c ∷ []) (split_char c s) ≡ s
join-split c [] = unfold split_char join in refl
join-split c (d ∷ s) = elim (Bool-cases (d == c)) [
  | inl e ↦
      let part : split_char c (d ∷ s) ≡ [] ∷ split_char c s = unfold split_char in rw e in
      cc (
        part,
        join-nil_part (c ∷ []) (split_char c s) (split-ne-nil c s),
        join-split c s,
        (==_iff d c).0 e,
      )
  | inr e ↦
      let part : split_char c (d ∷ s) ≡ cons_part d (split_char c s) = unfold split_char in rw e in
      cc (part, join-cons_part (c ∷ []) d (split_char c s), join-split c s)
]
