-- ===== src/Common/Distinct.antt =====
-- Lists of texts that grow by what is not in them yet.
use Prim.Native.Nat.{◌≤◌}
use mathlib.Core.Path.{◌≡◌, refl, sym, ◌∙◌}
use mathlib.Core.Logic.{inl, inr}
use mathlib.Core.Bool.{Bool, true, false, not, ◌&&◌, ◌||◌}
use mathlib.Core.List.{List, [], ◌∷◌, ◌++◌}
use native.Mathlib.Omega.{arith}
use kuuna_support_agents.Common.Tests.{if◌then◌else◌, Bool-cases}
use kuuna_support_agents.Common.Lists.{count, count-snoc_le_one}
use kuuna_support_agents.Common.Texts.{Text, is_empty, contains, text_eq, text_eq_iff}

-- Append a value that is not empty and not there yet.
abbrev pub add_new : List Text → Text → List Text
add_new acc value =
    if not (is_empty value) && not (contains value acc) then acc ++ value ∷ [] else acc

contains_snoc :
    (v w : Text) (acc : List Text) → contains v (acc ++ w ∷ []) ≡ (contains v acc || text_eq v w)
unfolding contains
contains_snoc v w [] = ground arith
contains_snoc v w (x ∷ acc) = ground (arith, contains_snoc v w acc)

pub or_and_false : (a n : Bool) → (a || (n && false)) ≡ a
or_and_false a n = ground arith

pub or_and_or : (a n x y : Bool) → ((a || (n && x)) || (n && y)) ≡ (a || (n && (x || y)))
or_and_or a n x y = ground arith

or_and_true : (a n : Bool) → (n && not a) ≡ true → (a || true) ≡ (a || (n && true))
or_and_true a n h = ground arith

or_and_kept : (a n : Bool) → (n && not a) ≡ false → a ≡ (a || (n && true))
or_and_kept a n h = ground arith

add_own :
    (v : Text) (acc : List Text)
    → contains v (add_new acc v) ≡ (contains v acc || (not (is_empty v) && true))
add_own v acc = elim (Bool-cases (not (is_empty v) && not (contains v acc))) [
  | inl f ↦ rw f (
      contains_snoc v v acc
      ∙ rw ((text_eq_iff v v).1 refl) (or_and_true (contains v acc) (not (is_empty v)) f))
  | inr f ↦ rw f (or_and_kept (contains v acc) (not (is_empty v)) f)
]

pub add_new_lem :
    (v w : Text) (acc : List Text)
    → contains v (add_new acc w) ≡ (contains v acc || (not (is_empty v) && text_eq v w))
add_new_lem v w acc = elim (Bool-cases (text_eq v w)) [
  | inl e ↦ let same : v ≡ w = (text_eq_iff v w).0 e in rw (e, sym same) (add_own v acc)
  | inr e ↦ elim (Bool-cases (not (is_empty w) && not (contains w acc))) [
    | inl f ↦ rw (f, e) (contains_snoc v w acc ∙ rw e (ground arith))
    | inr f ↦ rw (f, e) (sym (or_and_false (contains v acc) (not (is_empty v))))
  ]
]

pub count-eq_zero_of_contains :
    (v : Text) (acc : List Text) → contains v acc ≡ false → count (text_eq v) acc ≡ 0
unfolding contains
count-eq_zero_of_contains v [] h = refl
count-eq_zero_of_contains v (x ∷ acc) h = ground (arith, count-eq_zero_of_contains v acc)

pub count-add_new :
    (v w : Text) (acc : List Text)
    → count (text_eq v) acc ≤ 1
    → count (text_eq v) (add_new acc w) ≤ 1
count-add_new v w acc h = elim (Bool-cases (not (is_empty w) && not (contains w acc))) [
  | inl f ↦ rw f (
      count-snoc_le_one (text_eq v) acc w h (λ e.
        let same : v ≡ w = (text_eq_iff v w).0 e in
        let new : contains w acc ≡ false = ground arith in
        count-eq_zero_of_contains v acc (rw same new)))
  | inr f ↦ rw f h
]
