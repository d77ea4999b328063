-- ===== src/Indexing/Split.antt =====
-- `_split_text` of backend/src/kuuna_backend/jobs/indexing.py: the loop ends, no part is too long,
-- and no character is lost but blanks.
use kuuna_support_agents.Common.{
  ℕ, zero, suc, ◌≤◌, ◌<◌, ◌≡◌, refl, ap, ◌∙◌, sym, not, Option, none, some, List, [], ◌∷◌, ◌++◌,
  Text, strip, lstrip, rstrip, is_space, leb, length, take, drop, filter, All, arith, length-strip,
  length-drop, length-take, take-append-drop, Bool-cases, inl, inr,
}
use mathlib.Core.List.{append-nil}
use kuuna_support_agents.Indexing.{
  rfind, positive_or, split_at, append_part, split_loop, or_head, or_head_parts, split_stripped,
  split_text,
}

-- The characters of a text that are not blank.
abbrev pub ink : Text → Text
ink = filter (λ c. not (is_space c))

abbrev pub ink_all : List Text → Text
ink_all [] = []
ink_all (p ∷ ps) = ink p ++ ink_all ps

pub ink-append : (s t : Text) → ink (s ++ t) ≡ ink s ++ ink t
ink-append [] t = refl
ink-append (c ∷ s) t = ground (arith, ink-append s t)

ink-lstrip : (s : Text) → ink (lstrip s) ≡ ink s
unfolding lstrip
ink-lstrip [] = refl
ink-lstrip (c ∷ s) = ground (arith, ink-lstrip s)

ink-rstrip : (s : Text) → ink (rstrip s) ≡ ink s
unfolding rstrip
ink-rstrip [] = refl
ink-rstrip (c ∷ s) = ground (arith, ink-rstrip s)

pub ink-strip : (s : Text) → ink (strip s) ≡ ink s
ink-strip s = unfold strip in ink-rstrip (lstrip s) ∙ ink-lstrip s

rfind-lt : (c : ℕ) (s : Text) (i : ℕ) → rfind c s ≡ some i → i < length s
unfolding rfind
rfind-lt c [] i h = ground arith
rfind-lt c (x ∷ s) zero h = omega arith
rfind-lt c (x ∷ s) (suc i) h = ground (arith, rfind-lt c s i)

positive_or_bounds :
    (o : Option ℕ) (n d : ℕ)
    → ((i : ℕ) → o ≡ some i → i ≤ n)
    → 1 ≤ d
    → d ≤ n
    → (1 ≤ positive_or o d) × (positive_or o d ≤ n)
positive_or_bounds none n d h a b = (a, b)
positive_or_bounds (some zero) n d h a b = (a, b)
positive_or_bounds (some (suc i)) n d h a b = (omega arith, h (suc i) refl)

-- A part is cut off at a positive position, at most the chunk size.
split_at_bounds :
    (max_chunk : ℕ) (s : Text)
    → 1 ≤ max_chunk
    → (1 ≤ split_at max_chunk s) × (split_at max_chunk s ≤ max_chunk)
unfolding split_at
split_at_bounds m s h =
    let head = take (suc m) s in
    let inside : (c i : ℕ) → rfind c head ≡ some i → i ≤ m =
      λ c i e. omega (arith, rfind-lt c head i e, length-take (suc m) s) in
    let blank = positive_or_bounds (rfind 32 head) m m (inside 32) h (omega arith) in
    positive_or_bounds (rfind 10 head) m (positive_or (rfind 32 head) m) (inside 10) blank.0 blank.1

-- A part: not empty, and no longer than the chunk size.
abbrev pub Fits : ℕ → Text → Type 0
Fits m p = (1 ≤ length p) × (length p ≤ m)

ink_cut : (k : ℕ) (t : Text) → ink (strip (take k t)) ++ ink (strip (drop k t)) ≡ ink t
ink_cut k t =
    rw (ink-strip (take k t), ink-strip (drop k t))
      (sym (ink-append (take k t) (drop k t)) ∙ ap ink (take-append-drop k t))

pub left_empty : (s t : Text) → s ++ t ≡ [] → s ≡ []
left_empty [] t h = refl
left_empty (c ∷ s) t h = cc

ink-take : (m : ℕ) (t : Text) → ink t ≡ [] → ink (take m t) ≡ []
ink-take m t h =
    left_empty (ink (take m t)) (ink (drop m t))
      (sym (ink-append (take m t) (drop m t)) ∙ ap ink (take-append-drop m t) ∙ h)

-- What a finished loop over `s` returned.
abbrev pub Splits : ℕ → Text → Option (List Text) → Type 0
Splits m s none = ⊥
Splits m s (some parts) = All (Fits m) parts × (ink_all parts ≡ ink s)

append_part-Splits :
    (m : ℕ) (part s t : Text) (o : Option (List Text))
    → length part ≤ m
    → Splits m s o
    → ink part ++ ink s ≡ ink t
    → Splits m t (append_part part o)
append_part-Splits m part s t none l h e = absurd h
append_part-Splits m [] s t (some parts) l h e = (h.0, h.1 ∙ e)
append_part-Splits m (c ∷ part) s t (some parts) l h e =
    (((omega arith, l), h.0), ap (λ r. ink (c ∷ part) ++ r) h.1 ∙ e)

split_loop-Splits :
    (fuel m : ℕ) (s : Text) → 1 ≤ m → length s < fuel → Splits m s (split_loop fuel m s)
unfolding split_loop
split_loop-Splits zero m s h f = absurd (omega arith)
split_loop-Splits (suc fuel) m [] h f = (tt, refl)
split_loop-Splits (suc fuel) m (c ∷ s) h f =
    let t = c ∷ s in
    let k = split_at m t in
    let bounds = split_at_bounds m t h in
    elim (Bool-cases (leb (length t) m)) [
      | inl fits ↦ rw fits (((omega arith, ground arith), tt), append-nil (ink t))
      | inr long ↦ rw long (
          append_part-Splits m (strip (take k t)) (strip (drop k t)) t
            (split_loop fuel m (strip (drop k t)))
            (omega (arith, bounds, length-strip (take k t), length-take k t))
            (split_loop-Splits fuel m (strip (drop k t)) h
              (omega (arith, bounds, length-strip (drop k t), length-drop k t)))
            (ink_cut k t))
    ]

-- What a split or a chunking of `s` returned.
abbrev pub Covers : ℕ → Text → Option (List Text) → Type 0
Covers m s none = ⊥
Covers m s (some parts) =
    All (λ p. length p ≤ m) parts × (ink_all parts ≡ ink s) × (1 ≤ length parts)

pub Fits-bounded : (m : ℕ) (ps : List Text) → All (Fits m) ps → All (λ p. length p ≤ m) ps
Fits-bounded m [] h = tt
Fits-bounded m (p ∷ ps) h = (h.0.1, Fits-bounded m ps h.1)

pub or_head-Covers :
    (m : ℕ) (s : Text) (parts : List Text)
    → All (λ p. length p ≤ m) parts
    → ink_all parts ≡ ink s
    → Covers m s (some (or_head m s parts))
or_head-Covers m s [] h e =
    ((omega (arith, length-take m s), tt), rw (ink-take m s (sym e)) e, omega arith)
or_head-Covers m s (p ∷ parts) h e = (h, e, omega arith)

split_text_loop :
    (m : ℕ) (text t : Text) (o : Option (List Text))
    → ink t ≡ ink text
    → Splits m t o
    → Covers m text (or_head_parts m text o)
split_text_loop m text t none e h = absurd h
split_text_loop m text t (some parts) e h =
    or_head-Covers m text parts (Fits-bounded m parts h.0) (h.1 ∙ e)

split_stripped-Covers :
    (m : ℕ) (text t : Text) → 1 ≤ m → ink t ≡ ink text → Covers m text (split_stripped m text t)
split_stripped-Covers m text [] h e = unfold split_stripped in ((omega arith, tt), e, omega arith)
split_stripped-Covers m text (c ∷ s) h e =
    let loop = split_loop-Splits (suc (length (c ∷ s))) m (c ∷ s) h (omega arith) in
    let o = split_loop (suc (length (c ∷ s))) m (c ∷ s) in
    unfold split_stripped in split_text_loop m text (c ∷ s) o e loop

-- For a positive chunk size `_split_text` ends for every text; it returns at least one part, each
-- part has at most `max_chunk` characters, and the parts hold the text's characters that are not
-- blank, in order.
pub split_text-Covers : (m : ℕ) (text : Text) → 1 ≤ m → Covers m text (split_text m text)
unfolding split_text
split_text-Covers m text h = split_stripped-Covers m text (strip text) h (ink-strip text)
