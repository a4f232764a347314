-- ===== src/Regex/GroupFirst.antt =====
-- Patterns `^(…)…`: where they match, and how long the text of the group in front can be.
use dmanix.Base.{
  ℕ, ◌-◌, ◌<◌, ◌≡◌, refl, true, none, some, [], ◌∷◌, Text, length, length-take, arith,
}
use dmanix.Regex.{Regex, Cursor, seq, group, start, results}
use dmanix.Regex.Relation.{Matches, m_group}
use dmanix.Regex.Search.{Found, match, search_from, search_in, group_text}
use dmanix.Regex.FirstOf.{or_none}
use dmanix.Regex.Bounds.{
  consumes, Matches-forward, Matches-consumes, lacks_group, ShortGroup, lacks_group-ShortGroup,
  match_found, short_text, halfway,
}

late_start : (a : Regex) (before s : Text) (x : ℕ) → search_from (seq start a) (x ∷ before) s ≡ none
unfolding search_from results
late_start a before [] x = refl
late_start a before (y ∷ s) x = late_start a (x ∷ before) s y

-- A pattern that begins with `^` is found where it matches at the start, and nowhere else.
pub search_in-anchored : (a : Regex) (s : Text) → search_in (seq start a) s ≡ match (seq start a) s
unfolding search_in match search_from
search_in-anchored a [] = refl
search_in-anchored a (x ∷ s) = or_none (match (seq start a) (x ∷ s)) _ (late_start a [] s x)

-- A group holds no more than the text that it has read.
group_span :
    {n : ℕ} {r : Regex} {c e : Cursor}
    → Matches (group n r) c e
    → lacks_group n r ≡ true
    → ShortGroup n (length c.after - length e.after) c.groups
    → ShortGroup n (length c.after - length e.after) e.groups
group_span {n} (m_group {c = c} {d = d} m e) l h = rw e (
  λ same. omega (arith, length-take (length c.after - length d.after) c.after),
  lacks_group-ShortGroup n (length c.after - length d.after) m l (rw e at h),
)

-- The text of a group in front of a part that reads a character is shorter than the text that is matched.
pub group_text-front :
    (r b : Regex) (n : ℕ) (s : Text) (m : Found)
    → consumes b ≡ true
    → lacks_group n r ≡ true
    → lacks_group n b ≡ true
    → match (seq start (seq (group n r) b)) s ≡ some m
    → length (group_text m n) < length s
group_text-front r b n s m reads inside behind h =
    let (c, first, rest) = halfway (match_found (seq start (seq (group n r) b)) s m h) in
    let (e, second, third) = halfway rest in
    let bound = length c.after - length e.after in
    let short : ShortGroup n bound m.to.groups =
      lacks_group-ShortGroup n bound third behind
        (group_span second inside (lacks_group-ShortGroup n bound first refl tt)) in
    unfold group_text in
    omega (
      arith,
      short_text n bound m.to.groups short,
      Matches-forward first,
      Matches-forward second,
      Matches-consumes third reads,
    )
