-- ===== src/Base/Membership.antt =====
-- Membership in a list by recursion, through `++`, `flat_map` and `map`.
use mathlib.Core.List.{flat_map}
use dmanix.Base.{◌≡◌, refl, ◌⊎◌, inl, inr, List, [], ◌∷◌, ◌++◌, map}

-- Membership in a list, by recursion.
abbrev pub In : {A : Type 0} → A → List A → Type 0
In a [] = ⊥
In a (x ∷ xs) = (a ≡ x) ⊎ In a xs

module _ {A : Type 0} where
  pub In-append : (a : A) (xs ys : List A) → In a (xs ++ ys) → In a xs ⊎ In a ys
  In-append a [] ys h = inr h
  In-append a (x ∷ xs) ys (inl e) = inl (inl e)
  In-append a (x ∷ xs) ys (inr h) = elim (In-append a xs ys h) [
    | inl k ↦ inl (inr k)
    | inr k ↦ inr k
  ]

  pub In-left : (a : A) (xs ys : List A) → In a xs → In a (xs ++ ys)
  In-left a (x ∷ xs) ys (inl e) = inl e
  In-left a (x ∷ xs) ys (inr h) = inr (In-left a xs ys h)
  In-left a [] ys h = absurd h

  pub In-right : (a : A) (xs ys : List A) → In a ys → In a (xs ++ ys)
  In-right a [] ys h = h
  In-right a (x ∷ xs) ys h = inr (In-right a xs ys h)

module _ {A B : Type 0} where
  pub In-flat_map :
      (f : A → List B) (b : B) (xs : List A) → In b (flat_map f xs) → (a : A) × In a xs × In b (f a)
  unfolding flat_map
  In-flat_map f b [] h = absurd h
  In-flat_map f b (x ∷ xs) h = elim (In-append b (f x) (flat_map f xs) h) [
    | inl k ↦ (x, inl refl, k)
    | inr k ↦ let (a, m, l) = In-flat_map f b xs k in (a, inr m, l)
  ]

  pub flat_map-In :
      (f : A → List B) (b : B) (a : A) (xs : List A) → In a xs → In b (f a) → In b (flat_map f xs)
  unfolding flat_map
  flat_map-In f b a [] m h = absurd m
  flat_map-In f b a (x ∷ xs) (inl e) h = In-left b (f x) (flat_map f xs) (rw e at h)
  flat_map-In f b a (x ∷ xs) (inr m) h = In-right b (f x) (flat_map f xs) (flat_map-In f b a xs m h)

  pub In-map : (f : A → B) (b : B) (xs : List A) → In b (map f xs) → (a : A) × In a xs × (b ≡ f a)
  In-map f b [] h = absurd h
  In-map f b (x ∷ xs) (inl e) = (x, inl refl, e)
  In-map f b (x ∷ xs) (inr h) = let (a, m, e) = In-map f b xs h in (a, inr m, e)

  pub map-In : (f : A → B) (b : B) (a : A) (xs : List A) → In a xs → b ≡ f a → In b (map f xs)
  map-In f b a [] m e = absurd m
  map-In f b a (x ∷ xs) (inl k) e = inl (cc)
  map-In f b a (x ∷ xs) (inr m) e = inr (map-In f b a xs m e)
