-- ===== src/Regex/FirstChar.antt =====
-- Patterns of the form `^[^…]*([…])(.*)$`, by which the linter takes a line apart at the first character
-- of a set.
use mathlib.Core.Bool.{false≢true}
use mathlib.Core.Path.{subst}
use dmanix.Base.{
  ℕ, suc, ◌-◌, ◌≡◌, refl, sym, ap, ◌∙◌, Bool, true, false, not, Option, none, some, [], ◌∷◌, ◌++◌,
  Text, length, All, take, ◌==◌, arith, if◌then◌else◌,
}
use dmanix.Regex.{
  Regex, one, seq, star, group, start, end, Cursor, cursor, advance_over, between, at_end,
}
use dmanix.Regex.Relation.{Matches, m_one, m_seq, m_stop, m_round, m_group, m_start, m_end}
use dmanix.Regex.Chars.{dot}

-- No line feed, as in every line of a file.
abbrev pub NoNewline : Text → Type 0
NoNewline s = All (λ d. (d == 10) ≡ false) s

-- The first character of the set, and the text behind it.
abbrev pub split_at_first : (ℕ → Bool) → Text → Option (ℕ × Text)
split_at_first p [] = none
split_at_first p (x ∷ s) = let rest = split_at_first p s in if p x then some (x, s) else rest

-- ^[^…]*([…]) and (.*)$
abbrev pub first_head : (ℕ → Bool) → Regex
first_head p = seq start (seq (star (one (λ d. not (p d)))) (group 1 (one p)))

abbrev pub first_rest : Regex
first_rest = seq (group 2 (star dot)) end

abbrev pub Outside : (ℕ → Bool) → Text → Type 0
Outside p s = All (λ d. not (p d) ≡ true) s

-- What a repetition of one character reads.
pub record Steps (q : ℕ → Bool) (c d : Cursor) : Type 0 where
  pub read : Text
  pub splits : c.after ≡ read ++ d.after
  pub each : All (λ x. q x ≡ true) read
  pub same_groups : d.groups ≡ c.groups

pub one_step :
    (c : Cursor) (s : Text) (x : ℕ) (d : Cursor)
    → advance_over s c ≡ some (x, d)
    → (s ≡ x ∷ d.after) × (d.groups ≡ c.groups)
one_step c [] x d h = absurd (cc)
one_step c (y ∷ s) x d h = ground arith

pub star-Steps : {q : ℕ → Bool} {c d : Cursor} → Matches (star (one q)) c d → Steps q c d
star-Steps m_stop = record { read = []; splits = refl; each = tt; same_groups = refl }
star-Steps (m_round {c = c} {d = b} (m_one x e t) l k) =
    let s = star-Steps k in
    let (a, g) = one_step c c.after x b e in
    record {
      read = x ∷ s.read;
      splits = a ∙ ap (λ (r : Text). x ∷ r) s.splits;
      each = (t, s.each);
      same_groups = s.same_groups ∙ g;
    }

split_found :
    (p : ℕ → Bool) (pre : Text) (x : ℕ) (t : Text)
    → Outside p pre
    → p x ≡ true
    → split_at_first p (pre ++ x ∷ t) ≡ some (x, t)
split_found p [] x t o h = rw h
split_found p (y ∷ pre) x t o h = ground (arith, o.0, split_found p pre x t o.1 h)

pub All-suffix : (P : ℕ → Type 0) (a b : Text) → All P (a ++ b) → All P b
All-suffix P [] b h = h
All-suffix P (x ∷ a) b h = All-suffix P a b h.1

NoNewline-end : (s : Text) → NoNewline s → at_end s ≡ true → s ≡ []
NoNewline-end [] n e = refl
NoNewline-end (x ∷ []) n e = absurd (false≢true (sym n.0 ∙ e))
NoNewline-end (x ∷ y ∷ s) n e = absurd (false≢true e)

between-one : (c d : Cursor) (x : ℕ) → c.after ≡ x ∷ d.after → between c d ≡ x ∷ []
between-one c d x e = let n : suc (length d.after) - length d.after ≡ 1 = omega arith in rw e (rw n)

take_whole : (s : Text) → take (length s) s ≡ s
take_whole [] = refl
take_whole (x ∷ s) = ap (λ (r : Text). x ∷ r) (take_whole s)

between-all : (c d : Cursor) → d.after ≡ [] → between c d ≡ c.after
between-all c d e =
    let n : length c.after - 0 ≡ length c.after = omega arith in rw e (rw n (take_whole c.after))

-- What a match tells: the character, the text behind it, and that these are the two groups.
pub record Halves (p : ℕ → Bool) (s : Text) (d : Cursor) : Type 0 where
  pub char : ℕ
  pub behind : Text
  pub splits : split_at_first p s ≡ some (char, behind)
  pub two_groups : d.groups ≡ (2, behind) ∷ (1, char ∷ []) ∷ []

pub Matches-Halves :
    (p : ℕ → Bool) (s : Text) (d : Cursor)
    → NoNewline s
    → Matches (seq (first_head p) first_rest) (cursor s) d
    → Halves p s d
Matches-Halves p s d n
      (m_seq
        (m_seq (m_start b) (m_seq {d = c1} stars (m_group {d = b1} {e = e1} (m_one x a h) first)))
        (m_seq (m_group {d = b2} {e = e2} dots second) (m_end fin))) =
    let outside = star-Steps stars in
    let (here, kept) = one_step c1 c1.after x b1 a in
    let rest = star-Steps dots in
    let e1_after : e1.after ≡ b1.after = ap (λ (c : Cursor). c.after) first in
    let cut : s ≡ outside.read ++ x ∷ b1.after =
      outside.splits ∙ ap (λ (t : Text). outside.read ++ t) here in
    let tail : b1.after ≡ rest.read ++ b2.after = sym e1_after ∙ rest.splits in
    let n1 : NoNewline b1.after =
      (All-suffix (λ d. (d == 10) ≡ false) outside.read (x ∷ b1.after) (subst NoNewline cut n)).1 in
    let n2 : NoNewline b2.after =
      All-suffix (λ d. (d == 10) ≡ false) rest.read b2.after (subst NoNewline tail n1) in
    let ended : b2.after ≡ [] =
      NoNewline-end b2.after n2 (sym (ap (λ (c : Cursor). at_end c.after) second) ∙ fin) in
    let one_char : between c1 b1 ≡ x ∷ [] = between-one c1 b1 x here in
    let the_rest : between e1 b2 ≡ b1.after = between-all e1 b2 ended ∙ e1_after in
    let g2 : d.groups ≡ (2, between e1 b2) ∷ b2.groups = ap (λ (c : Cursor). c.groups) second in
    let g1 : e1.groups ≡ (1, between c1 b1) ∷ b1.groups = ap (λ (c : Cursor). c.groups) first in
    record {
      char = x;
      behind = b1.after;
      splits = ap (split_at_first p) cut ∙ split_found p outside.read x b1.after outside.each h;
      two_groups = cc (g2, g1, one_char, the_rest, rest.same_groups, kept, outside.same_groups);
    }
