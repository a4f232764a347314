-- ===== src/Lint/Unclosed.antt =====
-- NOLINT comments on a line without a closing parenthesis.
use mathlib.Core.Bool.{false≢true}
use dmanix.Base.{
  ℕ, ◌≡◌, refl, sym, ◌∙◌, false, Option, none, some, List, [], ◌∷◌, Text, All, ◌==◌, Bool, ◌⊎◌, inl,
  inr,
}
use dmanix.Regex.{Regex, one, Cursor, results}
use dmanix.Regex.Chars.{lit}
use dmanix.Regex.Relation.{Matches, m_one, m_empty, m_seq, m_left, m_right, m_group, m_boundary}
use dmanix.Regex.Decides.{results-iff-Matches}
use dmanix.Regex.Search.{Found, first_of_all, match_at, search_from, search_in, group_of}
use dmanix.Regex.FirstChar.{All-suffix, one_step, star-Steps}
use dmanix.Lint.Suppress.{re_suppression}

abbrev pub NoParenthesis : Text → Type 0
NoParenthesis s = All (λ x. (x == b')') ≡ false) s

-- A cursor from which a pattern matched, with what a search has kept.
record Start (r : Regex) (d : Cursor) : Type 0 where
  from : Cursor
  matched : Matches r from d
  no_groups : from.groups ≡ []
  lacks : NoParenthesis from.after

at_start :
    (r : Regex) (c : Cursor) (m : Found) (ds : List Cursor)
    → results r c ≡ ds
    → first_of_all c ds ≡ some m
    → Matches r c m.to
at_start r c m [] e h = absurd (cc)
at_start r c m (d ∷ ds) e h =
    let same : m.to ≡ d = cc in rw same ((results-iff-Matches r c d).0 (rw e (inl refl)))

chosen :
    (o rest : Option Found) (m : Found)
    → (elim o [ none ↦ rest | some k ↦ some k ]) ≡ some m
    → (o ≡ some m) ⊎ (rest ≡ some m)
chosen none rest m h = inr h
chosen (some k) rest m h = inl h

search-Start :
    (r : Regex) (before s : Text) (m : Found)
    → NoParenthesis s
    → search_from r before s ≡ some m
    → Start r m.to
unfolding search_from match_at
search-Start r before [] m n h = record {
  from = record { before = before; after = []; groups = [] };
  matched = at_start r _ m _ refl h;
  no_groups = refl;
  lacks = n;
}
search-Start r before (x ∷ s) m n h =
    elim (chosen (match_at r (record { before = before; after = x ∷ s; groups = [] }))
      (search_from r (x ∷ before) s) m h) [
        | inr e ↦ search-Start r (x ∷ before) s m n.1 e
        | inl e ↦ record {
          from = record { before = before; after = x ∷ s; groups = [] };
          matched = at_start r _ m _ refl e;
          no_groups = refl;
          lacks = n;
        }
      ]

record Passes (c d : Cursor) : Type 0 where
  same_groups : d.groups ≡ c.groups
  lacks : NoParenthesis d.after

one-Passes :
    {p : ℕ → Bool} {c d : Cursor} → Matches (one p) c d → NoParenthesis c.after → Passes c d
one-Passes {c = c} {d = d} (m_one x e t) n =
    let (s, g) = one_step c c.after x d e in
    let k : NoParenthesis (x ∷ d.after) = rw s at n in record { same_groups = g; lacks = k.1 }

lit-Passes : {c d : Cursor} → Matches (lit "NOLINT") c d → NoParenthesis c.after → Passes c d
lit-Passes (m_seq a (m_seq b (m_seq c (m_seq d (m_seq e f))))) n =
    let p = one-Passes a n in
    let q = one-Passes b p.lacks in
    let r = one-Passes c q.lacks in
    let s = one-Passes d r.lacks in
    let t = one-Passes e s.lacks in
    let u = one-Passes f t.lacks in
    record {
      same_groups =
          u.same_groups ∙ t.same_groups ∙ s.same_groups ∙ r.same_groups ∙ q.same_groups
          ∙ p.same_groups;
      lacks = u.lacks;
    }

no_close : {c d : Cursor} → Matches (one (λ x. x == b')')) c d → NoParenthesis c.after → ⊥
no_close {c} {d} (m_one x e t) n =
    let (s, g) = one_step c c.after x d e in
    let k : NoParenthesis (x ∷ d.after) = rw s at n in false≢true (sym k.0 ∙ t)

unclosed :
    {c d : Cursor}
    → Matches re_suppression c d
    → NoParenthesis c.after
    → c.groups ≡ []
    → d.groups ≡ []
unclosed (m_seq (m_boundary b) (m_seq word (m_seq (m_boundary b') (m_right m_empty)))) n g =
    (lit-Passes word n).same_groups ∙ g
unclosed
      (m_seq
        (m_boundary b)
        (m_seq word (m_seq (m_boundary b') (m_left (m_group (m_seq o (m_seq stars close)) same)))))
      n g =
    let p = one-Passes o (lit-Passes word n).lacks in
    let s = star-Steps stars in
    absurd
      (no_close close (All-suffix (λ x. (x == b')') ≡ false) s.read _ (rw s.splits at p.lacks)))

-- On a line without a closing parenthesis a NOLINT comment names no category.
pub unclosed-group :
    (raw_line : Text) (m : Found)
    → NoParenthesis raw_line
    → search_in re_suppression raw_line ≡ some m
    → group_of m 1 ≡ none
unclosed-group raw_line m n h =
    let s = search-Start re_suppression [] raw_line m n (unfold search_in in h) in
    unfold group_of in rw (unclosed s.matched s.lacks s.no_groups) refl
