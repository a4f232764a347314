-- ===== src/Regex/Bounds.antt =====
-- How long the text of a group can be: the loops of the linter go on with a group of a match, and this
-- is why they end.
use mathlib.Core.Path.{subst}
use dmanix.Base.{
  ℕ, ◌-◌, ◌≤◌, ◌<◌, ◌≡◌, refl, sym, inl, inr, Bool, true, false, not, ◌&&◌, ◌||◌, some, List, [],
  ◌∷◌, Text, length, length-take, ◌==◌, &&-true, Bool-cases, arith,
}
use dmanix.Regex.{
  Regex, one, empty, seq, alt, star, lazy, group, look, look_not, start, end, boundary, Cursor,
  cursor, advance_over, between, results,
}
use dmanix.Regex.Relation.{
  Matches, m_one, m_empty, m_seq, m_left, m_right, m_stop, m_round, m_lazy_stop, m_lazy_round,
  m_group, m_look, m_look_not, m_start, m_end, m_boundary,
}
use dmanix.Base.Membership.{In}
use dmanix.Regex.Decides.{results-iff-Matches}
use dmanix.Regex.Search.{Found, first_of_all, match, group_text, lookup_group, text_or_nil}

advance_shorter :
    (s : Text) (c : Cursor) (x : ℕ) (d : Cursor)
    → advance_over s c ≡ some (x, d)
    → length d.after < length s
advance_shorter [] c x d h = cc
advance_shorter (y ∷ s) c x d h = ground arith

advance_groups :
    (s : Text) (c : Cursor) (x : ℕ) (d : Cursor)
    → advance_over s c ≡ some (x, d)
    → d.groups ≡ c.groups
advance_groups [] c x d h = cc
advance_groups (y ∷ s) c x d h = ground arith

-- A match never goes back.
pub Matches-forward : {r : Regex} {c d : Cursor} → Matches r c d → length d.after ≤ length c.after
Matches-forward (m_one {c = c} {d = d} x e t) = omega (arith, advance_shorter c.after c x d e)
Matches-forward m_empty = omega arith
Matches-forward (m_seq m k) = omega (arith, Matches-forward m, Matches-forward k)
Matches-forward (m_left m) = Matches-forward m
Matches-forward (m_right m) = Matches-forward m
Matches-forward m_stop = omega arith
Matches-forward (m_round m l k) = omega (arith, Matches-forward k)
Matches-forward m_lazy_stop = omega arith
Matches-forward (m_lazy_round m l k) = omega (arith, Matches-forward k)
Matches-forward (m_group m e) = rw e (Matches-forward m)
Matches-forward (m_look m) = omega arith
Matches-forward (m_look_not e) = omega arith
Matches-forward (m_start e) = omega arith
Matches-forward (m_end e) = omega arith
Matches-forward (m_boundary e) = omega arith

-- Does every match of the pattern read a character?
abbrev pub consumes : Regex → Bool
consumes (one p) = true
consumes (seq r s) = consumes r || consumes s
consumes (alt r s) = consumes r && consumes s
consumes (group n r) = consumes r
consumes empty = false
consumes (star r) = false
consumes (lazy r) = false
consumes (look r) = false
consumes (look_not r) = false
consumes start = false
consumes end = false
consumes boundary = false

pub Matches-consumes :
    {r : Regex} {c d : Cursor} → Matches r c d → consumes r ≡ true → length d.after < length c.after
Matches-consumes (m_one {c = c} {d = d} x e t) h = advance_shorter c.after c x d e
Matches-consumes (m_seq {r} {s} m k) h = elim (Bool-cases (consumes r)) [
  | inl e ↦ omega (arith, Matches-consumes m e, Matches-forward k)
  | inr e ↦
      omega
        (arith, Matches-forward m, Matches-consumes k (let q : consumes s ≡ true = rw e at h in q))
]
Matches-consumes (m_left m) h = Matches-consumes m (ground arith)
Matches-consumes (m_right m) h = Matches-consumes m (ground arith)
Matches-consumes (m_group m e) h = rw e (Matches-consumes m h)
Matches-consumes m_empty h = cc
Matches-consumes m_stop h = cc
Matches-consumes (m_round m l k) h = cc
Matches-consumes m_lazy_stop h = cc
Matches-consumes (m_lazy_round m l k) h = cc
Matches-consumes (m_look m) h = cc
Matches-consumes (m_look_not e) h = cc
Matches-consumes (m_start e) h = cc
Matches-consumes (m_end e) h = cc
Matches-consumes (m_boundary e) h = cc

-- Does the pattern lack the group?
abbrev pub lacks_group : ℕ → Regex → Bool
lacks_group n (one p) = true
lacks_group n (seq r s) = lacks_group n r && lacks_group n s
lacks_group n (alt r s) = lacks_group n r && lacks_group n s
lacks_group n (group k r) = not (k == n) && lacks_group n r
lacks_group n empty = true
lacks_group n (star r) = lacks_group n r
lacks_group n (lazy r) = lacks_group n r
lacks_group n (look r) = true
lacks_group n (look_not r) = true
lacks_group n start = true
lacks_group n end = true
lacks_group n boundary = true

-- What has been captured for group `n`, at any time, is at most `bound` long.
abbrev pub ShortGroup : ℕ → ℕ → List (ℕ × Text) → Type 0
ShortGroup n bound [] = Unit
ShortGroup n bound ((k, t) ∷ gs) = ((k == n) ≡ true → length t ≤ bound) × ShortGroup n bound gs

-- A pattern without the group keeps its bound, whatever that is.
pub lacks_group-ShortGroup :
    {r : Regex} {c d : Cursor} (n bound : ℕ)
    → Matches r c d
    → lacks_group n r ≡ true
    → ShortGroup n bound c.groups
    → ShortGroup n bound d.groups
lacks_group-ShortGroup n b (m_one {c = c} {d = d} x e t) l h = rw (advance_groups c.after c x d e) h
lacks_group-ShortGroup n b (m_seq m k) l h =
    let q = &&-true _ _ l in lacks_group-ShortGroup n b k q.1 (lacks_group-ShortGroup n b m q.0 h)
lacks_group-ShortGroup n b (m_left m) l h = lacks_group-ShortGroup n b m (&&-true _ _ l).0 h
lacks_group-ShortGroup n b (m_right m) l h = lacks_group-ShortGroup n b m (&&-true _ _ l).1 h
lacks_group-ShortGroup n b (m_round m q k) l h =
    lacks_group-ShortGroup n b k l (lacks_group-ShortGroup n b m l h)
lacks_group-ShortGroup n b (m_lazy_round m q k) l h =
    lacks_group-ShortGroup n b k l (lacks_group-ShortGroup n b m l h)
lacks_group-ShortGroup n b (m_group {n = k} {r = r} m e) l h =
    let q = &&-true (not (k == n)) (lacks_group n r) l in
    rw e (λ same. absurd (ground (arith, q.0, same)), lacks_group-ShortGroup n b m q.1 h)
lacks_group-ShortGroup n b m_empty l h = h
lacks_group-ShortGroup n b m_stop l h = h
lacks_group-ShortGroup n b m_lazy_stop l h = h
lacks_group-ShortGroup n b (m_look m) l h = h
lacks_group-ShortGroup n b (m_look_not e) l h = h
lacks_group-ShortGroup n b (m_start e) l h = h
lacks_group-ShortGroup n b (m_end e) l h = h
lacks_group-ShortGroup n b (m_boundary e) l h = h

between_le : (c d : Cursor) → length (between c d) ≤ length c.after
between_le c d = omega (arith, length-take (length c.after - length d.after) c.after)

-- Any pattern keeps a bound that the text in front of it respects.
pub Matches-ShortGroup :
    {r : Regex} {c d : Cursor} (n bound : ℕ)
    → Matches r c d
    → length c.after ≤ bound
    → ShortGroup n bound c.groups
    → ShortGroup n bound d.groups
Matches-ShortGroup n b (m_one {c = c} {d = d} x e t) l h = rw (advance_groups c.after c x d e) h
Matches-ShortGroup n b (m_seq m k) l h =
    Matches-ShortGroup n b k (omega (arith, Matches-forward m)) (Matches-ShortGroup n b m l h)
Matches-ShortGroup n b (m_left m) l h = Matches-ShortGroup n b m l h
Matches-ShortGroup n b (m_right m) l h = Matches-ShortGroup n b m l h
Matches-ShortGroup n b (m_round m q k) l h =
    Matches-ShortGroup n b k (omega (arith, Matches-forward m)) (Matches-ShortGroup n b m l h)
Matches-ShortGroup n b (m_lazy_round m q k) l h =
    Matches-ShortGroup n b k (omega (arith, Matches-forward m)) (Matches-ShortGroup n b m l h)
Matches-ShortGroup n b (m_group {c = c} {d = d} m e) l h =
    rw e (λ same. omega (arith, between_le c d), Matches-ShortGroup n b m l h)
Matches-ShortGroup n b m_empty l h = h
Matches-ShortGroup n b m_stop l h = h
Matches-ShortGroup n b m_lazy_stop l h = h
Matches-ShortGroup n b (m_look m) l h = h
Matches-ShortGroup n b (m_look_not e) l h = h
Matches-ShortGroup n b (m_start e) l h = h
Matches-ShortGroup n b (m_end e) l h = h
Matches-ShortGroup n b (m_boundary e) l h = h

-- The match object of `match` is a match by the rules.
pub match_found :
    (r : Regex) (s : Text) (m : Found) → match r s ≡ some m → Matches r (cursor s) m.to
match_found r s m h = go (results r (cursor s)) refl (unfold match in h)
  where
    go :
        (ds : List Cursor)
        → results r (cursor s) ≡ ds
        → first_of_all (cursor s) ds ≡ some m
        → Matches r (cursor s) m.to
    go [] e k = absurd (cc)
    go (d ∷ ds) e k =
        let to : d ≡ m.to = ground arith in
        (results-iff-Matches r (cursor s) m.to).0 (subst (In m.to) (sym e) (inl (sym to)))

pub short_text :
    (n bound : ℕ) (gs : List (ℕ × Text))
    → ShortGroup n bound gs
    → length (text_or_nil (lookup_group n gs)) ≤ bound
short_text n b [] h = omega arith
short_text n b ((k, t) ∷ gs) h = elim (Bool-cases (k == n)) [
  | inl e ↦ rw e (h.0 e)
  | inr e ↦ rw e (short_text n b gs h.1)
]

abbrev pub Halfway : Regex → Regex → Cursor → Cursor → Type 0
Halfway a b c d = (e : Cursor) × Matches a c e × Matches b e d

pub halfway : {a b : Regex} {c d : Cursor} → Matches (seq a b) c d → Halfway a b c d
halfway (m_seq {d = e} m k) = (e, m, k)

-- The text of a group that stands behind a part of the pattern which reads a character is shorter than
-- the text that is matched.
pub group_text-shorter :
    (a b : Regex) (n : ℕ) (s : Text) (m : Found)
    → consumes a ≡ true
    → lacks_group n a ≡ true
    → match (seq a b) s ≡ some m
    → length (group_text m n) < length s
group_text-shorter a b n s m reads lacks h =
    let (e, first, second) = halfway (match_found (seq a b) s m h) in
    let less = Matches-consumes first reads in
    let short : ShortGroup n (length e.after) m.to.groups =
      Matches-ShortGroup n (length e.after) second (omega arith)
        (lacks_group-ShortGroup n (length e.after) first lacks tt) in
    unfold group_text in omega (arith, short_text n (length e.after) m.to.groups short)
