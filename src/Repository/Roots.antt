-- ===== src/Repository/Roots.antt =====
-- The loops up the directories.
use dmanix.Base.{
  ℕ, zero, suc, ◌+◌, ◌≤◌, ◌<◌, ◌≡◌, ◌⊎◌, refl, sym, ap, ◌∙◌, inl, inr, Bool, true, false, not, ◌&&◌,
  Option, none, some, [], ◌∷◌, ◌++◌, reverse, append-nil, Text, codes, length, length-append,
  text_eq, ◌==◌, Bool-cases, arith, is_nil_text, take, take-append-drop, if◌then◌else◌,
}
use mathlib.Core.List.{reverse-append, reverse-reverse}
use dmanix.Base.TextLaws.{text_eq_refl}
use dmanix.Paths.{
  span_without, split_after_last, lstrip_char, rstrip_char, split_path, dirname, join_path,
}
use dmanix.Repository.{
  svn_root, common_prefix, find_root, is_root, root_name, repository_name, below_root,
}

span_without-append : (c : ℕ) (s : Text) → (span_without c s).0 ++ (span_without c s).1 ≡ s
unfolding span_without
span_without-append c [] = refl
span_without-append c (d ∷ s) = elim (Bool-cases (d == c)) [
  | inl e ↦ rw e refl
  | inr e ↦ rw e (ap (λ (t : Text). d ∷ t) (span_without-append c s))
]

split_after_last-append :
    (c : ℕ) (p : Text) → (split_after_last c p).0 ++ (split_after_last c p).1 ≡ p
unfolding split_after_last
split_after_last-append c p =
    sym (reverse-append (span_without c (reverse p)).0 (span_without c (reverse p)).1)
    ∙ ap reverse (span_without-append c (reverse p))
    ∙ reverse-reverse p

lstrip_char-suffix : (c : ℕ) (s : Text) → (t : Text) × (s ≡ t ++ lstrip_char c s)
unfolding lstrip_char
lstrip_char-suffix c [] = ([], refl)
lstrip_char-suffix c (d ∷ s) = elim (Bool-cases (d == c)) [
  | inl e ↦ let (t, q) = lstrip_char-suffix c s in (d ∷ t, rw e (ap (λ (u : Text). d ∷ u) q))
  | inr e ↦ ([], rw e refl)
]

rstrip_char-prefix : (c : ℕ) (s : Text) → (t : Text) × (s ≡ rstrip_char c s ++ t)
unfolding rstrip_char
rstrip_char-prefix c s =
    let (t, q) = lstrip_char-suffix c (reverse s) in
    (
      reverse t,
      sym (reverse-reverse s) ∙ ap reverse q ∙ reverse-append t (lstrip_char c (reverse s)),
    )

-- The directory of a name is shorter than it, or it is the name itself.
dirname-shorter : (p : Text) → (dirname p ≡ p) ⊎ (length (dirname p) < length p)
unfolding dirname split_path
dirname-shorter p =
    let (head, tail) = split_after_last b'/' p in
    let (t, q) = rstrip_char-prefix b'/' head in
    go head tail (rstrip_char b'/' head) t (split_after_last-append b'/' p) q
  where
    go :
        (head tail bare t : Text)
        → head ++ tail ≡ p
        → head ≡ bare ++ t
        → ((if is_nil_text bare then head else bare) ≡ p)
          ⊎ (length (if is_nil_text bare then head else bare) < length p)
    go head [] [] t e q = inl (sym (append-nil head) ∙ e)
    go head (y ∷ tail) [] t e q =
        inr (omega (arith, ap (λ (u : Text). length u) e, length-append head (y ∷ tail)))
    go head [] (x ∷ bare) [] e q =
        inl (sym (append-nil (x ∷ bare)) ∙ sym q ∙ sym (append-nil head) ∙ e)
    go head (y ∷ tail) (x ∷ bare) t e q = inr (
        omega (
          arith,
          ap (λ (u : Text). length u) e,
          length-append head (y ∷ tail),
          ap (λ (u : Text). length u) q,
          length-append (x ∷ bare) t,
        ))
    go head [] (x ∷ bare) (z ∷ t) e q = inr (
        omega (
          arith,
          ap (λ (u : Text). length u) e,
          length-append head [],
          ap (λ (u : Text). length u) q,
          length-append (x ∷ bare) (z ∷ t),
        ))

module _ (exists : Text → Bool) where
  find_root_ends :
      (fuel : ℕ) (root_dir : Text)
      → length root_dir < fuel
      → (r : Text) × (find_root exists fuel root_dir ≡ some r)
  unfolding find_root
  find_root_ends zero root_dir h = absurd (omega arith)
  find_root_ends (suc fuel) root_dir h = elim (dirname-shorter root_dir) [
    | inl e ↦
        let same : text_eq root_dir (dirname root_dir) ≡ true = rw e (text_eq_refl root_dir) in
        (root_dir, rw same refl)
    | inr l ↦
        let (r, q) = find_root_ends fuel (dirname root_dir) (omega (arith, l, h)) in
        elim (Bool-cases
          (not (text_eq root_dir (dirname root_dir)) && not (is_root exists root_dir))) [
            | inl g ↦ (r, rw g q)
            | inr g ↦ (root_dir, rw g refl)
          ]
  ]

  -- A name that is the end of the full name.
  abbrev pub Ending : Text → Text → Type 0
  Ending fullname name = (front : Text) × (fullname ≡ front ++ name)

  below_root-Ending :
      (fullname root_dir project_dir : Text)
      → Ending fullname (below_root fullname root_dir project_dir)
  unfolding below_root
  below_root-Ending fullname root_dir project_dir =
      let n = length (common_prefix root_dir project_dir) + 1 in
      (take n fullname, sym (take-append-drop n fullname))

  root_name-Ending :
      (fullname project_dir : Text) (o : Option Text) (r : Text)
      → o ≡ some r
      → (name : Text) × (root_name exists fullname project_dir o ≡ some name) × Ending fullname name
  root_name-Ending fullname project_dir none r h = absurd (cc)
  root_name-Ending fullname project_dir (some q) r h = elim (Bool-cases (is_root exists q)) [
    | inl e ↦
        (below_root fullname q project_dir, rw e refl, below_root-Ending fullname q project_dir)
    | inr e ↦ (fullname, rw e refl, ([], refl))
  ]

  dirname_le : (p : Text) → length (dirname p) ≤ length p
  dirname_le p = elim (dirname-shorter p) [
    | inl e ↦ omega (arith, ap (λ (u : Text). length u) e)
    | inr l ↦ omega (arith, l)
  ]

  -- Where no Subversion checkout is at the directory of the file, RepositoryName ends, with fuel for every
  -- character of the full name, and its result is an end of the full name.
  pub repository_name_ends :
      (fuel : ℕ) (fullname : Text)
      → length fullname < fuel
      → exists (join_path (dirname fullname) (codes ".svn")) ≡ false
      → (name : Text) × (repository_name exists fuel fullname ≡ some name)
        × ((front : Text) × (fullname ≡ front ++ name))
  unfolding repository_name
  repository_name_ends fuel fullname h no_svn =
      let (r, q) = find_root_ends fuel (dirname fullname) (omega (arith, h, dirname_le fullname)) in
      let (name, e, ending) =
        root_name-Ending fullname (dirname fullname) (find_root exists fuel (dirname fullname)) r
          q in
      elim (Bool-cases (exists fullname)) [
        | inl x ↦ (name, rw (x, no_svn) e, ending)
        | inr x ↦ (fullname, rw x refl, ([], refl))
      ]

  abbrev pub ancestor : ℕ → Text → Text
  ancestor zero dir = dir
  ancestor (suc n) dir = ancestor n (dirname dir)

  svn_root_hangs :
      (fuel : ℕ) (root_dir one_up_dir : Text)
      → ((n : ℕ) → exists (join_path (ancestor n one_up_dir) (codes ".svn")) ≡ true)
      → svn_root exists fuel root_dir one_up_dir ≡ none
  unfolding svn_root
  svn_root_hangs zero root_dir one_up_dir h = refl
  svn_root_hangs (suc fuel) root_dir one_up_dir h =
      rw (h 0) (svn_root_hangs fuel (dirname root_dir) (dirname one_up_dir) (λ n. h (suc n)))

  -- RepositoryName never ends on a file that exists where its directory and each directory above it, up to the
  -- root of the file system, has an entry `.svn`: whatever the fuel, there is no result.
  pub repository_name_hangs :
      (fuel : ℕ) (fullname : Text)
      → exists fullname ≡ true
      → ((n : ℕ) → exists (join_path (ancestor n (dirname fullname)) (codes ".svn")) ≡ true)
      → repository_name exists fuel fullname ≡ none
  unfolding repository_name
  repository_name_hangs fuel fullname x h =
      let stuck =
        svn_root_hangs fuel (dirname fullname) (dirname (dirname fullname)) (λ n. h (suc n)) in
      rw (x, h 0) (rw stuck refl)
