-- ===== src/Regex/Rounds.antt =====
-- The repetitions `*` and `*?` on fuel: what they list, and that their fuel is enough.
use mathlib.Core.List.{flat_map}
use dmanix.Base.{
  ℕ, zero, suc, ◌≤◌, ◌<◌, ◌≡◌, refl, inl, inr, true, List, [], ◌∷◌, ◌++◌, length, ltb, ltb→lt,
  lt→ltb, Bool-cases, arith,
}
use dmanix.Base.Membership.{In, In-append, In-left, In-right, In-flat_map, flat_map-In}
use dmanix.Regex.{Regex, star, lazy, Cursor, advanced, rounds, lazy_rounds}
use dmanix.Regex.Relation.{Matches, m_stop, m_round, m_lazy_stop, m_lazy_round}

pub In-advanced :
    (c d : Cursor) (ds : List Cursor)
    → In d (advanced c ds)
    → In d ds × (length d.after < length c.after)
unfolding advanced
In-advanced c d [] h = absurd h
In-advanced c d (e ∷ ds) h = elim (Bool-cases (ltb (length e.after) (length c.after))) [
  | inl t ↦ elim (let k : In d (e ∷ advanced c ds) = rw t at h in k) [
    | inl q ↦ (inl q, rw q (ltb→lt _ _ t))
    | inr k ↦ let (m, l) = In-advanced c d ds k in (inr m, l)
  ]
  | inr t ↦
      let k : In d (advanced c ds) = rw t at h in let (m, l) = In-advanced c d ds k in (inr m, l)
]

pub advanced-In :
    (c d : Cursor) (ds : List Cursor)
    → In d ds
    → length d.after < length c.after
    → In d (advanced c ds)
unfolding advanced
advanced-In c d [] m l = absurd m
advanced-In c d (e ∷ ds) (inl q) l =
    let t : ltb (length e.after) (length c.after) ≡ true = rw q at (lt→ltb _ _ l) in rw t (inl q)
advanced-In c d (e ∷ ds) (inr m) l = elim (Bool-cases (ltb (length e.after) (length c.after))) [
  | inl t ↦ rw t (inr (advanced-In c d ds m l))
  | inr t ↦ rw t (advanced-In c d ds m l)
]

pub rounds_sound :
    {r : Regex} (f : Cursor → List Cursor)
    → ((c d : Cursor) → In d (f c) → Matches r c d)
    → (n : ℕ) (c d : Cursor) → In d (rounds n f c)
    → Matches (star r) c d
unfolding rounds
rounds_sound f sound zero c d (inl e) = rw e m_stop
rounds_sound f sound zero c d (inr m) = absurd m
rounds_sound f sound (suc n) c d h =
    elim (In-append d (flat_map (rounds n f) (advanced c (f c))) (c ∷ []) h) [
      | inl k ↦
          let (x, m, i) = In-flat_map (rounds n f) d (advanced c (f c)) k in
          let (m', l) = In-advanced c x (f c) m in
          m_round (sound c x m') l (rounds_sound f sound n x d i)
      | inr (inl e) ↦ rw e m_stop
      | inr (inr m) ↦ absurd m
    ]

pub lazy_rounds_sound :
    {r : Regex} (f : Cursor → List Cursor)
    → ((c d : Cursor) → In d (f c) → Matches r c d)
    → (n : ℕ) (c d : Cursor) → In d (lazy_rounds n f c)
    → Matches (lazy r) c d
unfolding lazy_rounds
lazy_rounds_sound f sound zero c d (inl e) = rw e m_lazy_stop
lazy_rounds_sound f sound zero c d (inr m) = absurd m
lazy_rounds_sound f sound (suc n) c d (inl e) = rw e m_lazy_stop
lazy_rounds_sound f sound (suc n) c d (inr k) =
    let (x, m, i) = In-flat_map (lazy_rounds n f) d (advanced c (f c)) k in
    let (m', l) = In-advanced c x (f c) m in
    m_lazy_round (sound c x m') l (lazy_rounds_sound f sound n x d i)

pub rounds_stop : (f : Cursor → List Cursor) (n : ℕ) (c : Cursor) → In c (rounds n f c)
unfolding rounds
rounds_stop f zero c = inl refl
rounds_stop f (suc n) c = In-right c (flat_map (rounds n f) (advanced c (f c))) (c ∷ []) (inl refl)

rounds_go :
    (f : Cursor → List Cursor) (n : ℕ) (c d e : Cursor)
    → In d (f c)
    → length d.after < length c.after
    → In e (rounds n f d)
    → In e (rounds (suc n) f c)
unfolding rounds
rounds_go f n c d e m l k =
    In-left e (flat_map (rounds n f) (advanced c (f c))) (c ∷ [])
      (flat_map-In (rounds n f) e d (advanced c (f c)) (advanced-In c d (f c) m l) k)

-- More fuel loses nothing.
rounds_more :
    (f : Cursor → List Cursor) (n m : ℕ) (c e : Cursor)
    → In e (rounds n f c)
    → n ≤ m
    → In e (rounds m f c)
rounds_more f zero m c e h l = unfold rounds in go h
  where
    go : In e (c ∷ []) → In e (rounds m f c)
    go (inl q) = rw q (rounds_stop f m c)
    go (inr k) = absurd k
rounds_more f (suc n) zero c e h l = absurd (omega arith)
rounds_more f (suc n) (suc m) c e h l =
    let k : In e (flat_map (rounds n f) (advanced c (f c)) ++ c ∷ []) = unfold rounds in h in
    elim (In-append e (flat_map (rounds n f) (advanced c (f c))) (c ∷ []) k) [
      | inl k ↦
          let (d, q, i) = In-flat_map (rounds n f) e (advanced c (f c)) k in
          let (q', b) = In-advanced c d (f c) q in
          rounds_go f m c d e q' b (rounds_more f n m d e i (omega arith))
      | inr (inl q) ↦ rw q (rounds_stop f (suc m) c)
      | inr (inr q) ↦ absurd q
    ]

-- Enough fuel: a round leaves less text, so as many rounds as there are characters are all there are.
pub rounds_step :
    (f : Cursor → List Cursor) (c d e : Cursor)
    → In d (f c)
    → length d.after < length c.after
    → In e (rounds (length d.after) f d)
    → In e (rounds (length c.after) f c)
rounds_step f c d e m l k =
    rounds_more f (suc (length d.after)) (length c.after) c e
      (rounds_go f (length d.after) c d e m l k) (omega arith)

pub lazy_rounds_stop : (f : Cursor → List Cursor) (n : ℕ) (c : Cursor) → In c (lazy_rounds n f c)
unfolding lazy_rounds
lazy_rounds_stop f zero c = inl refl
lazy_rounds_stop f (suc n) c = inl refl

lazy_rounds_go :
    (f : Cursor → List Cursor) (n : ℕ) (c d e : Cursor)
    → In d (f c)
    → length d.after < length c.after
    → In e (lazy_rounds n f d)
    → In e (lazy_rounds (suc n) f c)
unfolding lazy_rounds
lazy_rounds_go f n c d e m l k =
    inr (flat_map-In (lazy_rounds n f) e d (advanced c (f c)) (advanced-In c d (f c) m l) k)

lazy_rounds_more :
    (f : Cursor → List Cursor) (n m : ℕ) (c e : Cursor)
    → In e (lazy_rounds n f c)
    → n ≤ m
    → In e (lazy_rounds m f c)
lazy_rounds_more f zero m c e h l = unfold lazy_rounds in go h
  where
    go : In e (c ∷ []) → In e (lazy_rounds m f c)
    go (inl q) = rw q (lazy_rounds_stop f m c)
    go (inr k) = absurd k
lazy_rounds_more f (suc n) zero c e h l = absurd (omega arith)
lazy_rounds_more f (suc n) (suc m) c e h l =
    let k : In e (c ∷ flat_map (lazy_rounds n f) (advanced c (f c))) = unfold lazy_rounds in h in
    elim k [
      | inl q ↦ rw q (lazy_rounds_stop f (suc m) c)
      | inr k ↦
          let (d, q, i) = In-flat_map (lazy_rounds n f) e (advanced c (f c)) k in
          let (q', b) = In-advanced c d (f c) q in
          lazy_rounds_go f m c d e q' b (lazy_rounds_more f n m d e i (omega arith))
    ]

pub lazy_rounds_step :
    (f : Cursor → List Cursor) (c d e : Cursor)
    → In d (f c)
    → length d.after < length c.after
    → In e (lazy_rounds (length d.after) f d)
    → In e (lazy_rounds (length c.after) f c)
lazy_rounds_step f c d e m l k =
    lazy_rounds_more f (suc (length d.after)) (length c.after) c e
      (lazy_rounds_go f (length d.after) c d e m l k) (omega arith)
