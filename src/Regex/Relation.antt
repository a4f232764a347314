-- ===== src/Regex/Relation.antt =====
-- What a pattern means, as a relation between cursors.
use mathlib.Core.Bool.{xor}
use dmanix.Base.{ℕ, ◌<◌, ◌≡◌, Bool, true, some, [], length}
use dmanix.Regex.{
  Regex, one, empty, seq, alt, star, lazy, group, look, look_not, start, end, boundary, Cursor,
  advance, capture, at_end, starts_word, results,
}

-- From where to where a pattern may match. The rounds of a repetition each go forward.
pub data Matches : Regex → Cursor → Cursor → Type 0 where
  m_one :
      {p : ℕ → Bool} {c d : Cursor} (x : ℕ)
      → advance c ≡ some (x, d)
      → p x ≡ true
      → Matches (one p) c d
  m_empty : {c : Cursor} → Matches empty c c
  m_seq : {r s : Regex} {c d e : Cursor} → Matches r c d → Matches s d e → Matches (seq r s) c e
  m_left : {r s : Regex} {c d : Cursor} → Matches r c d → Matches (alt r s) c d
  m_right : {r s : Regex} {c d : Cursor} → Matches s c d → Matches (alt r s) c d
  m_stop : {r : Regex} {c : Cursor} → Matches (star r) c c
  m_round :
      {r : Regex} {c d e : Cursor}
      → Matches r c d
      → length d.after < length c.after
      → Matches (star r) d e
      → Matches (star r) c e
  m_lazy_stop : {r : Regex} {c : Cursor} → Matches (lazy r) c c
  m_lazy_round :
      {r : Regex} {c d e : Cursor}
      → Matches r c d
      → length d.after < length c.after
      → Matches (lazy r) d e
      → Matches (lazy r) c e
  m_group :
      {n : ℕ} {r : Regex} {c d e : Cursor}
      → Matches r c d
      → e ≡ capture n c d
      → Matches (group n r) c e
  m_look : {r : Regex} {c d : Cursor} → Matches r c d → Matches (look r) c c
  m_look_not : {r : Regex} {c : Cursor} → results r c ≡ [] → Matches (look_not r) c c
  m_start : {c : Cursor} → c.before ≡ [] → Matches start c c
  m_end : {c : Cursor} → at_end c.after ≡ true → Matches end c c
  m_boundary :
      {c : Cursor} → xor (starts_word c.before) (starts_word c.after) ≡ true → Matches boundary c c
