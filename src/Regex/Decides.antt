-- ===== src/Regex/Decides.antt =====
-- The matcher lists exactly what the relation `Matches` allows.
use mathlib.Core.Bool.{xor}
use dmanix.Base.{
  ℕ, ◌≡◌, refl, ◌↔◌, inl, inr, Bool, true, false, Option, none, some, List, [], ◌∷◌, Text, length,
  Bool-cases,
}
use dmanix.Base.Membership.{
  In, In-append, In-left, In-right, In-flat_map, flat_map-In, In-map, map-In,
}
use dmanix.Regex.{
  Regex, one, empty, seq, alt, star, lazy, group, look, look_not, start, end, boundary, Cursor,
  advance, when_char, capture, when_any, unless_any, keep_if, is_nil, at_end, starts_word, results,
}
use dmanix.Regex.Relation.{
  Matches, m_one, m_empty, m_seq, m_left, m_right, m_stop, m_round, m_lazy_stop, m_lazy_round,
  m_group, m_look, m_look_not, m_start, m_end, m_boundary,
}
use dmanix.Regex.Rounds.{
  rounds_sound, lazy_rounds_sound, rounds_stop, rounds_step, lazy_rounds_stop, lazy_rounds_step,
}

when_any-In : (c d : Cursor) (ds : List Cursor) → In d ds → In c (when_any c ds)
when_any-In c d [] m = absurd m
when_any-In c d (x ∷ ds) m = inl refl

results_complete : {r : Regex} {c d : Cursor} → Matches r c d → In d (results r c)
unfolding results
results_complete (m_one x e t) = rw (e, t) (inl refl)
results_complete m_empty = inl refl
results_complete (m_seq {r} {s} {c} {d} {e} m k) =
    flat_map-In (results s) e d (results r c) (results_complete m) (results_complete k)
results_complete (m_left {r} {s} {c} {d} m) =
    In-left d (results r c) (results s c) (results_complete m)
results_complete (m_right {r} {s} {c} {d} m) =
    In-right d (results r c) (results s c) (results_complete m)
results_complete (m_stop {r} {c}) = rounds_stop (results r) (length c.after) c
results_complete (m_round {r} {c} {d} {e} m q k) =
    rounds_step (results r) c d e (results_complete m) q (results_complete k)
results_complete (m_lazy_stop {r} {c}) = lazy_rounds_stop (results r) (length c.after) c
results_complete (m_lazy_round {r} {c} {d} {e} m q k) =
    lazy_rounds_step (results r) c d e (results_complete m) q (results_complete k)
results_complete (m_group {n} {r} {c} {d} {e} m q) =
    map-In (capture n c) e d (results r c) (results_complete m) q
results_complete (m_look {r} {c} {d} m) = when_any-In c d (results r c) (results_complete m)
results_complete (m_look_not e) = rw e (inl refl)
results_complete (m_start e) = rw e (inl refl)
results_complete (m_end e) = rw e (inl refl)
results_complete (m_boundary e) = rw e (inl refl)

keep_if-In : (b : Bool) (c d : Cursor) → In d (keep_if b c) → (b ≡ true) × (d ≡ c)
keep_if-In true c d (inl e) = (refl, e)
keep_if-In true c d (inr m) = absurd m
keep_if-In false c d m = absurd m

is_nil-eq : (s : Text) → is_nil s ≡ true → s ≡ []
is_nil-eq [] h = refl
is_nil-eq (x ∷ s) h = cc

results_sound : (r : Regex) (c d : Cursor) → In d (results r c) → Matches r c d
unfolding results
results_sound (one p) c d h = one_sound p d (advance c) refl h
  where
    one_sound :
        (p : ℕ → Bool) (d : Cursor) (o : Option (ℕ × Cursor))
        → advance c ≡ o
        → In d (when_char p o)
        → Matches (one p) c d
    one_sound p d none e h = absurd h
    one_sound p d (some (x, b)) e h = elim (Bool-cases (p x)) [
      | inl t ↦ elim (let k : In d (b ∷ []) = rw t at h in k) [
        | inl q ↦ m_one x (rw q e) t
        | inr m ↦ absurd m
      ]
      | inr t ↦ absurd (let k : In d [] = rw t at h in k)
    ]
results_sound empty c d (inl e) = rw e m_empty
results_sound empty c d (inr m) = absurd m
results_sound (seq r s) c d h =
    let (x, m, k) = In-flat_map (results s) d (results r c) h in
    m_seq (results_sound r c x m) (results_sound s x d k)
results_sound (alt r s) c d h = elim (In-append d (results r c) (results s c) h) [
  | inl k ↦ m_left (results_sound r c d k)
  | inr k ↦ m_right (results_sound s c d k)
]
results_sound (star r) c d h = rounds_sound (results r) (results_sound r) (length c.after) c d h
results_sound (lazy r) c d h =
    lazy_rounds_sound (results r) (results_sound r) (length c.after) c d h
results_sound (group n r) c d h =
    let (x, m, e) = In-map (capture n c) d (results r c) h in m_group (results_sound r c x m) e
results_sound (look r) c d h = go (results r c) (results_sound r c) h
  where
    go :
        (ds : List Cursor)
        → ((x : Cursor) → In x ds → Matches r c x)
        → In d (when_any c ds)
        → Matches (look r) c d
    go [] k m = absurd m
    go (x ∷ ds) k (inl e) = rw e (m_look (k x (inl refl)))
    go (x ∷ ds) k (inr m) = absurd m
results_sound (look_not r) c d h = go (results r c) refl h
  where
    go : (ds : List Cursor) → results r c ≡ ds → In d (unless_any c ds) → Matches (look_not r) c d
    go [] k (inl e) = rw e (m_look_not k)
    go [] k (inr m) = absurd m
    go (x ∷ ds) k m = absurd m
results_sound start c d h =
    let (b, e) = keep_if-In (is_nil c.before) c d h in rw e (m_start (is_nil-eq c.before b))
results_sound end c d h = let (b, e) = keep_if-In (at_end c.after) c d h in rw e (m_end b)
results_sound boundary c d h =
    let (b, e) = keep_if-In (xor (starts_word c.before) (starts_word c.after)) c d h in
    rw e (m_boundary b)

-- The matcher lists a cursor for a pattern and a starting cursor exactly when the pattern matches from
-- the one to the other by the rules of `Matches`: nothing is missed, the fuel of `*` and `*?`
-- included, and nothing is made up.
pub results-iff-Matches : (r : Regex) (c d : Cursor) → In d (results r c) ↔ Matches r c d
results-iff-Matches r c d = (results_sound r c d, results_complete)
