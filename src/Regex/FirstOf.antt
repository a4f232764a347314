-- ===== src/Regex/FirstOf.antt =====
-- When a pattern of the form `^[^…]*([…])(.*)$` matches, and what it matches.
use mathlib.Core.Path.{subst}
use dmanix.Base.{
  append-nil, Option-cases, ℕ, ◌<◌, ◌≡◌, refl, sym, ap, ◌∙◌, inl, inr, Bool, true, false, not,
  Option, none, some, List, [], ◌∷◌, ◌++◌, Text, length, All, ◌==◌, Bool-cases, arith,
}
use dmanix.Base.Membership.{In}
use dmanix.Regex.{Regex, one, seq, star, start, Cursor, cursor, advance, capture, results}
use dmanix.Regex.Relation.{Matches, m_one, m_seq, m_stop, m_round, m_group, m_start, m_end}
use dmanix.Regex.Decides.{results-iff-Matches}
use dmanix.Regex.Bounds.{match_found}
use dmanix.Regex.Search.{Found, first_of_all, match, search_from, search_in, group_text}
pub use dmanix.Regex.FirstChar.{NoNewline, split_at_first, first_head, first_rest}
use dmanix.Regex.FirstChar.{All-suffix, Matches-Halves, Outside}

-- The other way round: where the character is there, the pattern matches.
star-outside :
    (q : ℕ → Bool) (read rest before : Text) (gs : List (ℕ × Text))
    → All (λ x. q x ≡ true) read
    → (c : Cursor) × (c.after ≡ rest)
      × Matches (star (one q)) (record { before = before; after = read ++ rest; groups = gs }) c
star-outside q [] rest before gs h =
    (record { before = before; after = rest; groups = gs }, refl, m_stop)
star-outside q (x ∷ read) rest before gs h =
    let (c, e, m) = star-outside q read rest (x ∷ before) gs h.1 in
    (c, e, m_round (m_one x refl h.0) (omega arith) m)

star-All :
    (q : ℕ → Bool) (s before : Text) (gs : List (ℕ × Text))
    → All (λ x. q x ≡ true) s
    → (c : Cursor) × (c.after ≡ [])
      × Matches (star (one q)) (record { before = before; after = s; groups = gs }) c
star-All q s before gs h =
    let (c, e, m) = star-outside q s [] before gs h in
    (
      c,
      e,
      subst
          (λ (t : Text).
            Matches (star (one q)) (record { before = before; after = t; groups = gs }) c)
          (append-nil s) m,
    )

split_parts :
    (p : ℕ → Bool) (s : Text) (x : ℕ) (t : Text)
    → split_at_first p s ≡ some (x, t)
    → (pre : Text) × (s ≡ pre ++ x ∷ t) × Outside p pre × (p x ≡ true)
split_parts p [] x t h = absurd (cc)
split_parts p (y ∷ s) x t h = elim (Bool-cases (p y)) [
  | inl e ↦
      let k : ◌≡◌ {A = Option (ℕ × Text)} (some (y, s)) (some (x, t)) = rw e at h in
      ([], ground arith, tt, ground arith)
  | inr e ↦
      let (pre, cut, o, q) = split_parts p s x t (rw e at h) in
      (y ∷ pre, ap (λ (r : Text). y ∷ r) cut, (rw e, o), q)
]

pub split_at_first-shorter :
    (p : ℕ → Bool) (s : Text) (x : ℕ) (t : Text)
    → split_at_first p s ≡ some (x, t)
    → length t < length s
split_at_first-shorter p [] x t h = absurd (cc)
split_at_first-shorter p (y ∷ s) x t h = ground (arith, split_at_first-shorter p s x t)

pub split_at_first-NoNewline :
    (p : ℕ → Bool) (s : Text) (x : ℕ) (t : Text)
    → NoNewline s
    → split_at_first p s ≡ some (x, t)
    → NoNewline t
split_at_first-NoNewline p s x t n h =
    let (pre, cut, o, q) = split_parts p s x t h in
    (All-suffix (λ d. (d == 10) ≡ false) pre (x ∷ t) (subst NoNewline cut n)).1

not_newline : (s : Text) → NoNewline s → All (λ x. not (x == 10) ≡ true) s
not_newline [] n = tt
not_newline (x ∷ s) n = (rw n.0, not_newline s n.1)

match-found :
    (p : ℕ → Bool) (s : Text) (x : ℕ) (t : Text)
    → NoNewline s
    → split_at_first p s ≡ some (x, t)
    → (d : Cursor) × Matches (seq (first_head p) first_rest) (cursor s) d
match-found p s x t n h =
    let (pre, cut, o, q) = split_parts p s x t h in
    let (c1, e1, stars) = star-outside (λ d. not (p d)) pre (x ∷ t) [] [] o in
    let b1 : Cursor = record c1 { before = x ∷ c1.before; after = t } in
    let step : advance c1 ≡ some (x, b1) = rw e1 in
    let n1 = split_at_first-NoNewline p s x t n h in
    let (b2, e2, dots) =
      star-All (λ d. not (d == 10)) t (x ∷ c1.before) (capture 1 c1 b1).groups (not_newline t n1) in
    (
      capture 2 (capture 1 c1 b1) b2,
      subst
          (λ (r : Text).
            Matches (seq (first_head p) first_rest) (cursor r) (capture 2 (capture 1 c1 b1) b2))
          (sym cut)
          (m_seq (m_seq (m_start refl) (m_seq stars (m_group (m_one x step q) refl)))
            (m_seq (m_group dots refl) (m_end (rw e2)))),
    )

match-some :
    (r : Regex) (s : Text) (d : Cursor)
    → Matches r (cursor s) d
    → (m : Found) × (match r s ≡ some m)
match-some r s d k =
    unfold match in go (results r (cursor s)) ((results-iff-Matches r (cursor s) d).1 k)
  where
    go : (ds : List Cursor) → In d ds → (m : Found) × (first_of_all (cursor s) ds ≡ some m)
    go [] i = absurd i
    go (e ∷ ds) i = (record { from = cursor s; to = e }, refl)

-- Where no character of the set stands on the line, the pattern does not match.
pub first_match-none :
    (p : ℕ → Bool) (s : Text)
    → NoNewline s
    → split_at_first p s ≡ none
    → match (seq (first_head p) first_rest) s ≡ none
first_match-none p s n h = elim (Option-cases (match (seq (first_head p) first_rest) s)) [
  | inl e ↦ e
  | inr (m, e) ↦
      let v = Matches-Halves p s m.to n (match_found (seq (first_head p) first_rest) s m e) in
      absurd (cc (v.splits, h))
]

-- Where one stands there, the first group is the first of them and the second group is what follows.
pub first_match-some :
    (p : ℕ → Bool) (s : Text) (x : ℕ) (t : Text)
    → NoNewline s
    → split_at_first p s ≡ some (x, t)
    → (m : Found) × (match (seq (first_head p) first_rest) s ≡ some m)
      × (group_text m 1 ≡ x ∷ [])
      × (group_text m 2 ≡ t)
first_match-some p s x t n h =
    let (d, k) = match-found p s x t n h in
    let (m, e) = match-some (seq (first_head p) first_rest) s d k in
    let v = Matches-Halves p s m.to n (match_found (seq (first_head p) first_rest) s m e) in
    let same : ◌≡◌ {A = Option (ℕ × Text)} (some (v.char, v.behind)) (some (x, t)) =
      sym v.splits ∙ h in
    let char : v.char ≡ x = ground arith in
    let behind : v.behind ≡ t = ground arith in
    (
      m,
      e,
      unfold group_text in rw v.two_groups (rw char),
      unfold group_text in rw v.two_groups behind,
    )

-- A search for such a pattern looks at the front only.
late_start :
    (a b : Regex) (before s : Text) (x : ℕ)
    → search_from (seq (seq start a) b) (x ∷ before) s ≡ none
unfolding search_from results
late_start a b before [] x = refl
late_start a b before (y ∷ s) x = late_start a b (x ∷ before) s y

pub or_none :
    (o later : Option Found) → later ≡ none → (elim o [ none ↦ later | some m ↦ some m ]) ≡ o
or_none none later h = h
or_none (some m) later h = refl

pub search_in-start :
    (a b : Regex) (s : Text) → search_in (seq (seq start a) b) s ≡ match (seq (seq start a) b) s
unfolding search_in match search_from
search_in-start a b [] = refl
search_in-start a b (x ∷ s) =
    or_none (match (seq (seq start a) b) (x ∷ s)) _ (late_start a b [] s x)
