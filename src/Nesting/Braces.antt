-- ===== src/Nesting/Braces.antt =====
-- The loop of `Update` over braces, semicolons and closing parentheses, as one walk over the characters.
use dmanix.Base.{
  ℕ, zero, suc, ◌<◌, ◌≡◌, refl, inl, inr, Bool, Option, none, some, List, [], ◌∷◌, ◌++◌, Text,
  codes, length, mem_char, Option-cases, Bool-cases, arith, if◌then◌else◌,
}
use dmanix.Regex.FirstOf.{
  NoNewline, split_at_first, split_at_first-NoNewline, split_at_first-shorter, first_match-none,
  first_match-some,
}
use dmanix.Lint.{Action}
use dmanix.Nesting.{BlockInfo}
use dmanix.Nesting.Update.{token_stack, token_actions, take_tokens}

abbrev pub is_token : ℕ → Bool
is_token c = mem_char c (codes "{;)}")

abbrev pub first_then : List Action → List BlockInfo × List Action → List BlockInfo × List Action
first_then actions (stack, later) = (stack, actions ++ later)

module _ (filename raw_line : Text) (linenum : ℕ) where
  -- Each token in turn changes the stack; `segment` is the text from behind the token before it.
  unfoldable pub walk : Text → Text → List BlockInfo → List BlockInfo × List Action
  walk segment [] stack = (stack, [])
  walk segment (c ∷ s) stack =
      let token =
        first_then (token_actions (c ∷ []) filename raw_line linenum stack)
          (walk s s (token_stack (c ∷ []) segment stack)) in
      let other = walk segment s stack in if is_token c then token else other

  walk-none :
      (segment s : Text) (stack : List BlockInfo)
      → split_at_first is_token s ≡ none
      → walk segment s stack ≡ (stack, [])
  unfolding walk
  walk-none segment [] stack h = refl
  walk-none segment (c ∷ s) stack h = elim (Bool-cases (is_token c)) [
    | inl e ↦ absurd (cc (let k : ◌≡◌ {A = Option (ℕ × Text)} (some (c, s)) none = rw e at h in k))
    | inr e ↦ rw e (walk-none segment s stack (rw e at h))
  ]

  walk-some :
      (segment s : Text) (stack : List BlockInfo) (x : ℕ) (t : Text)
      → split_at_first is_token s ≡ some (x, t)
      → walk segment s stack
        ≡ first_then
            (token_actions (x ∷ []) filename raw_line linenum stack)
            (walk t t (token_stack (x ∷ []) segment stack))
  unfolding walk
  walk-some segment [] stack x t h = absurd (cc)
  walk-some segment (c ∷ s) stack x t h = elim (Bool-cases (is_token c)) [
    | inl e ↦
        let k : ◌≡◌ {A = Option (ℕ × Text)} (some (c, s)) (some (x, t)) = rw e at h in
        let same : c ≡ x = ground arith in let rest : s ≡ t = ground arith in rw e (rw (same, rest))
    | inr e ↦ rw e (walk-some segment s stack x t (rw e at h))
  ]

  -- On a line without a line feed, and with fuel for every character, the loop over tokens does what the
  -- walk over the characters of the line does.
  pub take_tokens-walk :
      (fuel : ℕ) (line : Text) (stack : List BlockInfo)
      → NoNewline line
      → length line < fuel
      → take_tokens fuel filename raw_line linenum line stack ≡ some (walk line line stack)
  unfolding take_tokens
  take_tokens-walk zero line stack n h = absurd (omega arith)
  take_tokens-walk (suc fuel) line stack n h = elim (Option-cases (split_at_first is_token line)) [
    | inl e ↦ rw (first_match-none is_token line n e, walk-none line line stack e)
    | inr ((x, t), e) ↦
        let (m, found, g1, g2) = first_match-some is_token line x t n e in
        let next =
          take_tokens-walk fuel t (token_stack (x ∷ []) line stack)
            (split_at_first-NoNewline is_token line x t n e)
            (omega (arith, split_at_first-shorter is_token line x t e)) in
        rw (found, walk-some line line stack x t e) (rw (g1, g2) (rw next))
  ]
