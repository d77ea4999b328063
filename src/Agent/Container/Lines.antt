-- ===== src/Agent/Container/Lines.antt =====
-- The last line of a text, as `text.splitlines()[-1]` of services/runtime-agent/src/docker_runner.py
-- takes it from one that does not end in a line break.
use kuuna_support_agents.Common.{
  ℕ, ◌≡◌, refl, ap, ◌∙◌, Bool, true, false, ◌||◌, [], ◌∷◌, ◌++◌, Text, is_empty, any, arith,
  Bool-cases, inl, inr,
}
use kuuna_support_agents.Agent.Container.{is_line_break, last_line}

abbrev pub ends_in_break : Text → Bool
ends_in_break [] = false
ends_in_break (c ∷ []) = is_line_break c
ends_in_break (c ∷ d ∷ s) = ends_in_break (d ∷ s)

-- The end of a text without a line break, where it starts or after a line break.
abbrev pub IsLastLine : (text line : Text) → Type 0
IsLastLine text line =
    (before : Text) × (text ≡ before ++ line)
    × ((is_empty before || ends_in_break before) ≡ true)
    × (any is_line_break line ≡ false)

last_line_alone : (line : Text) → any is_line_break line ≡ false → last_line line ≡ line
unfolding last_line
last_line_alone [] h = refl
last_line_alone (c ∷ s) h = elim (Bool-cases (any is_line_break s)) [
  | inl e ↦ absurd (ground arith)
  | inr e ↦ let no : is_line_break c ≡ false = ground arith in rw (e, no) refl
]

has_break :
    (before line : Text) → ends_in_break before ≡ true → any is_line_break (before ++ line) ≡ true
has_break [] line h = absurd (ground arith)
has_break (c ∷ []) line h = rw h refl
has_break (c ∷ d ∷ s) line h = let rest = has_break (d ∷ s) line h in ground arith

last_line_after :
    (before line : Text)
    → ends_in_break before ≡ true
    → any is_line_break line ≡ false
    → last_line (before ++ line) ≡ line
unfolding last_line
last_line_after [] line h n = absurd (ground arith)
last_line_after (c ∷ []) line h n = rw (n, h) refl
last_line_after (c ∷ d ∷ s) line h n =
    rw (has_break (d ∷ s) line h) (last_line_after (d ∷ s) line h n)

-- There is one last line at most.
pub last_line-eq : (text line : Text) → IsLastLine text line → last_line text ≡ line
last_line-eq text line ([], e, s, n) = ap last_line e ∙ last_line_alone line n
last_line-eq text line (c ∷ before, e, s, n) =
    ap last_line e ∙ last_line_after (c ∷ before) line s n

below_break :
    (c : ℕ) (s line : Text)
    → any is_line_break s ≡ true
    → IsLastLine s line
    → IsLastLine (c ∷ s) line
below_break c s line h ([], e, t, n) =
    let no : any is_line_break s ≡ false = rw e n in absurd (ground arith)
below_break c s line h (d ∷ before, e, t, n) = (c ∷ d ∷ before, ap (λ x. c ∷ x) e, t, n)

pub last_line-IsLastLine : (text : Text) → IsLastLine text (last_line text)
unfolding last_line
last_line-IsLastLine [] = ([], refl, refl, refl)
last_line-IsLastLine (c ∷ s) = elim (Bool-cases (any is_line_break s)) [
  | inl e ↦ rw e (below_break c s (last_line s) e (last_line-IsLastLine s))
  | inr e ↦ elim (Bool-cases (is_line_break c)) [
    | inl b ↦ rw (e, b) (c ∷ [], refl, b, e)
    | inr b ↦ rw (e, b) ([], refl, refl, rw (e, b) refl)
  ]
]
