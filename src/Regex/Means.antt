-- ===== src/Regex/Means.antt =====
-- What a pattern reads, part by part: the texts before and behind it, without the cursors.
use dmanix.Base.{
  ℕ, ◌≡◌, ◌⊎◌, ◌↔◌, refl, inl, inr, Bool, true, false, List, [], ◌∷◌, ◌++◌, Text, All, arith,
}
use dmanix.Base.Membership.{In}
use dmanix.Regex.{Regex, one, star, Cursor, cursor, capture, results}
use dmanix.Regex.Chars.{◌⨾◌, ◌⊕◌}
use dmanix.Regex.Relation.{
  Matches, m_one, m_empty, m_seq, m_left, m_right, m_stop, m_round, m_group,
}
use dmanix.Regex.Decides.{results-iff-Matches}
use dmanix.Regex.Search.{matches}
use dmanix.Regex.FirstChar.{one_step, star-Steps}

-- Which texts a pattern goes from and to, whatever stands before them.
pub record Means (r : Regex) (q : Text → Text → Type 0) : Type 0 where
  pub sound : (c d : Cursor) → Matches r c d → q c.after d.after
  pub complete :
      (c : Cursor) (t : Text) → q c.after t → (d : Cursor) × Matches r c d × (d.after ≡ t)

abbrev pub Char : (ℕ → Bool) → Text → Text → Type 0
Char p s t = (x : ℕ) × (s ≡ x ∷ t) × (p x ≡ true)

pub one-Means : (p : ℕ → Bool) → Means (one p) (Char p)
one-Means p = record { sound = reads; complete = λ c t h. steps c c.after t refl h }
  where
    reads : (c d : Cursor) → Matches (one p) c d → Char p c.after d.after
    reads c d (m_one x e h) = (x, (one_step c c.after x d e).0, h)

    steps :
        (c : Cursor) (s t : Text)
        → c.after ≡ s
        → Char p s t
        → (d : Cursor) × Matches (one p) c d × (d.after ≡ t)
    steps c [] t e (x, k, h) = absurd (cc)
    steps c (y ∷ s) t e (x, k, h) =
        let same : y ≡ x = cc in
        let rest : s ≡ t = cc in
        (record c { before = y ∷ c.before; after = s }, m_one y (rw e) (rw same h), rest)

pub seq-Means :
    {r s : Regex} {p q : Text → Text → Type 0}
    → Means r p
    → Means s q
    → Means (r ⨾ s) (λ a b. (m : Text) × p a m × q m b)
seq-Means {r} {s} {p} {q} h k = record { sound = reads; complete = goes }
  where
    reads : (c d : Cursor) → Matches (r ⨾ s) c d → (m : Text) × p c.after m × q m d.after
    reads c d (m_seq {d = e} a b) = (e.after, h.sound c e a, k.sound e d b)

    goes :
        (c : Cursor) (t : Text)
        → ((m : Text) × p c.after m × q m t)
        → (d : Cursor) × Matches (r ⨾ s) c d × (d.after ≡ t)
    goes c t (m, a, b) =
        let (e, a', same) = h.complete c m a in
        let (d, b', ends) = k.complete e t (rw same b) in (d, m_seq a' b', ends)

pub alt-Means :
    {r s : Regex} {p q : Text → Text → Type 0}
    → Means r p
    → Means s q
    → Means (r ⊕ s) (λ a b. p a b ⊎ q a b)
alt-Means {r} {s} {p} {q} h k = record { sound = reads; complete = goes }
  where
    reads : (c d : Cursor) → Matches (r ⊕ s) c d → p c.after d.after ⊎ q c.after d.after
    reads c d (m_left a) = inl (h.sound c d a)
    reads c d (m_right a) = inr (k.sound c d a)

    goes :
        (c : Cursor) (t : Text)
        → p c.after t ⊎ q c.after t
        → (d : Cursor) × Matches (r ⊕ s) c d × (d.after ≡ t)
    goes c t (inl a) = let (d, m, e) = h.complete c t a in (d, m_left m, e)
    goes c t (inr a) = let (d, m, e) = k.complete c t a in (d, m_right m, e)

pub empty-Means : Means Regex.empty (λ a b. a ≡ b)
empty-Means = record { sound = reads; complete = λ c t e. (c, m_empty, e) }
  where
    reads : (c d : Cursor) → Matches Regex.empty c d → c.after ≡ d.after
    reads c d m_empty = refl

pub group-Means :
    {r : Regex} {p : Text → Text → Type 0} (n : ℕ) → Means r p → Means (Regex.group n r) p
group-Means {r} {p} n h = record { sound = reads; complete = goes }
  where
    reads : (c d : Cursor) → Matches (Regex.group n r) c d → p c.after d.after
    reads c d (m_group {d = e} m same) = rw same (h.sound c e m)

    goes :
        (c : Cursor) (t : Text)
        → p c.after t
        → (d : Cursor) × Matches (Regex.group n r) c d × (d.after ≡ t)
    goes c t a = let (d, m, e) = h.complete c t a in (capture n c d, m_group m refl, e)

-- Any number of characters with a property.
abbrev pub Chars : (ℕ → Bool) → Text → Text → Type 0
Chars p s t = (read : Text) × (s ≡ read ++ t) × All (λ x. p x ≡ true) read

pub star-Means : (p : ℕ → Bool) → Means (star (one p)) (Chars p)
star-Means p = record {
  sound = λ c d m. let s = star-Steps m in (s.read, s.splits, s.each);
  complete = λ c t h. go c h.0 t h.1 h.2;
}
  where
    go :
        (c : Cursor) (read t : Text)
        → c.after ≡ read ++ t
        → All (λ x. p x ≡ true) read
        → (d : Cursor) × Matches (star (one p)) c d × (d.after ≡ t)
    go c [] t e h = (c, m_stop, e)
    go c (x ∷ read) t e h =
        let (b, m, same) = (one-Means p).complete c (read ++ t) (x, e, h.0) in
        let (d, k, ends) = go b read t same h.1 in
        (d, m_round m (rw (same, e) (omega arith)) k, ends)

-- What a pattern asks of the text that it is matched on.
abbrev pub Asks : Regex → (Text → Type 0) → Type 0
Asks r p = (c : Cursor) → ((d : Cursor) × Matches r c d) ↔ p c.after

-- A repetition at the end of a pattern asks for nothing.
pub star-Asks : (r : Regex) → Asks (star r) (λ a. Unit)
star-Asks r c = (λ h. tt, λ h. (c, m_stop))

pub seq-Asks :
    {r s : Regex} {q : Text → Text → Type 0} {p : Text → Type 0}
    → Means r q
    → Asks s p
    → Asks (r ⨾ s) (λ a. (m : Text) × q a m × p m)
seq-Asks {r} {s} {q} {p} h k c = (reads, goes)
  where
    reads : ((d : Cursor) × Matches (r ⨾ s) c d) → (m : Text) × q c.after m × p m
    reads (d, m_seq {d = e} a b) = (e.after, h.sound c e a, (k e).0 (d, b))

    goes : ((m : Text) × q c.after m × p m) → (d : Cursor) × Matches (r ⨾ s) c d
    goes (m, a, b) =
        let (e, a', same) = h.complete c m a in
        let (d, b') = (k e).1 (rw same b) in (d, m_seq a' b')

result_found :
    (r : Regex) (s : Text) (d : Cursor) → In d (results r (cursor s)) → matches r s ≡ true
result_found r s d m = found (results r (cursor s)) refl m
  where
    found : (ds : List Cursor) → results r (cursor s) ≡ ds → In d ds → matches r s ≡ true
    found [] e m = absurd m
    found (x ∷ ds) e m = unfold matches in rw e refl

found_result :
    (r : Regex) (s : Text) → matches r s ≡ true → (d : Cursor) × In d (results r (cursor s))
found_result r s h = found (results r (cursor s)) refl
  where
    found :
        (ds : List Cursor) → results r (cursor s) ≡ ds → (d : Cursor) × In d (results r (cursor s))
    found [] e = absurd (
        let k : matches r s ≡ false = unfold matches in rw e refl in
        let no : false ≡ true = rw k at h in cc)
    found (x ∷ ds) e = (x, rw e (inl refl))

-- `if Match(pattern, s)` asks of the text what the pattern does.
pub matches-iff-Asks :
    (r : Regex) (p : Text → Type 0) (s : Text) → Asks r p → (matches r s ≡ true) ↔ p s
matches-iff-Asks r p s h = (
  λ m.
      let (d, k) = found_result r s m in
      (h (cursor s)).0 (d, (results-iff-Matches r (cursor s) d).0 k),
  λ a.
      let (d, k) = (h (cursor s)).1 a in
      result_found r s d ((results-iff-Matches r (cursor s) d).1 k),
)

-- A character with a property in front.
abbrev pub Begins : (ℕ → Bool) → Text → Type 0
Begins p [] = ⊥
Begins p (x ∷ s) = p x ≡ true

pub Begins-Char : (p : ℕ → Bool) (s m : Text) → Char p s m → Begins p s
Begins-Char p [] m (x, e, h) = absurd (cc)
Begins-Char p (y ∷ s) m (x, e, h) = let same : y ≡ x = cc in rw same h

pub Char-Begins : (p : ℕ → Bool) (s : Text) → Begins p s → (m : Text) × Char p s m
Char-Begins p [] h = absurd h
Char-Begins p (x ∷ s) h = (s, (x, refl, h))

pub map-Asks : (r : Regex) (p q : Text → Type 0) → Asks r p → ((s : Text) → p s ↔ q s) → Asks r q
map-Asks r p q h k c = (λ m. (k c.after).0 ((h c).0 m), λ a. (h c).1 ((k c.after).1 a))

pub first-Asks : (p : ℕ → Bool) (r : Regex) → Asks (one p ⨾ star r) (Begins p)
first-Asks p r =
    map-Asks (one p ⨾ star r) (λ a. (m : Text) × Char p a m × Unit) (Begins p)
      (seq-Asks (one-Means p) (star-Asks r))
      (λ s. (λ h. Begins-Char p s h.0 h.1, λ h. let (m, k) = Char-Begins p s h in (m, k, tt)))
