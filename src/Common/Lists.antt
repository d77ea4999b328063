-- ===== src/Common/Lists.antt =====
-- Lists measured by native numbers, and a table of rows read by Boolean tests.
use Prim.Native.Nat.{ℕ, zero, suc, ◌+◌, ◌-◌, ◌≤◌, min}
use mathlib.Core.Path.{◌≡◌, refl, ap}
use mathlib.Core.Bool.{Bool, true, false, ◌&&◌, ◌||◌}
use mathlib.Core.Option
use mathlib.Core.Logic.{inl, inr}
use mathlib.Core.Option.{Option, none, some}
use mathlib.Core.List.{List, [], ◌∷◌, ◌++◌}
use native.Mathlib.Omega.{arith}
use kuuna_support_agents.Common.Tests.{Bool-cases, if◌then◌else◌}

module _ {ℓ} {A : Type ℓ} where
  abbrev pub length : List A → ℕ
  length [] = 0
  length (x ∷ xs) = suc (length xs)

  abbrev pub take : ℕ → List A → List A
  take zero xs = []
  take (suc n) [] = []
  take (suc n) (x ∷ xs) = x ∷ take n xs

  abbrev pub drop : ℕ → List A → List A
  drop zero xs = xs
  drop (suc n) [] = []
  drop (suc n) (x ∷ xs) = drop n xs

  pub length-append : (xs ys : List A) → length (xs ++ ys) ≡ length xs + length ys
  length-append [] ys = omega arith
  length-append (x ∷ xs) ys = omega (arith, length-append xs ys)

  pub length-take : (n : ℕ) (xs : List A) → length (take n xs) ≡ min n (length xs)
  length-take zero xs = omega arith
  length-take (suc n) [] = omega arith
  length-take (suc n) (x ∷ xs) = omega (arith, length-take n xs)

  pub length-drop : (n : ℕ) (xs : List A) → length (drop n xs) ≡ length xs - n
  length-drop zero xs = omega arith
  length-drop (suc n) [] = omega arith
  length-drop (suc n) (x ∷ xs) = omega (arith, length-drop n xs)

  pub take-append-drop : (n : ℕ) (xs : List A) → take n xs ++ drop n xs ≡ xs
  take-append-drop zero xs = refl
  take-append-drop (suc n) [] = refl
  take-append-drop (suc n) (x ∷ xs) = ap (λ t. x ∷ t) (take-append-drop n xs)

-- `select(...).where(p)`, with and without `limit(1)`; an update of the rows that pass the test.
module _ {ℓ} {A : Type ℓ} where
  abbrev pub find? : (A → Bool) → List A → Option A
  find? p [] = none
  find? p (x ∷ xs) = if p x then some x else find? p xs

  abbrev pub filter : (A → Bool) → List A → List A
  filter p [] = []
  filter p (x ∷ xs) = let rest = filter p xs in if p x then x ∷ rest else rest

  abbrev pub any : (A → Bool) → List A → Bool
  any p [] = false
  any p (x ∷ xs) = p x || any p xs

  abbrev pub all : (A → Bool) → List A → Bool
  all p [] = true
  all p (x ∷ xs) = p x && all p xs

  abbrev pub count : (A → Bool) → List A → ℕ
  count p [] = 0
  count p (x ∷ xs) = (if p x then 1 else 0) + count p xs

  abbrev pub update_where : (A → Bool) → (A → A) → List A → List A
  update_where p f [] = []
  update_where p f (x ∷ xs) = (if p x then f x else x) ∷ update_where p f xs

  -- Every row has the property.
  abbrev pub All {κ} : (A → Type κ) → List A → Type κ
  All P [] = Unit
  All P (x ∷ xs) = P x × All P xs

module _ {ℓ} {A : Type ℓ} where
  pub count-append : (p : A → Bool) (xs ys : List A) → count p (xs ++ ys) ≡ count p xs + count p ys
  count-append p [] ys = omega arith
  count-append p (x ∷ xs) ys = omega (arith, count-append p xs ys)

  pub count_mono :
      (p q : A → Bool)
      → ((x : A) → p x ≡ true → q x ≡ true)
      → (xs : List A) → count p xs ≤ count q xs
  count_mono p q h [] = omega arith
  count_mono p q h (x ∷ xs) = ground (arith, h x, count_mono p q h xs)

  pub count-update_where_mono :
      (p q r : A → Bool) (f : A → A)
      → ((x : A) → r (if p x then f x else x) ≡ true → q x ≡ true)
      → (xs : List A) → count r (update_where p f xs) ≤ count q xs
  count-update_where_mono p q r f h [] = omega arith
  count-update_where_mono p q r f h (x ∷ xs) =
      ground (arith, h x, count-update_where_mono p q r f h xs)

  pub count-eq_zero_of_find? : (p : A → Bool) (xs : List A) → find? p xs ≡ none → count p xs ≡ 0
  count-eq_zero_of_find? p [] h = refl
  count-eq_zero_of_find? p (x ∷ xs) h = ground (arith, count-eq_zero_of_find? p xs)

  pub find?_holds : (p : A → Bool) (xs : List A) (x : A) → find? p xs ≡ some x → p x ≡ true
  find?_holds p [] x h = ground arith
  find?_holds p (y ∷ xs) x h = ground (arith, find?_holds p xs x)

  pub length-update_where :
      (p : A → Bool) (f : A → A) (xs : List A) → length (update_where p f xs) ≡ length xs
  length-update_where p f [] = refl
  length-update_where p f (x ∷ xs) = ap suc (length-update_where p f xs)

  -- A test that no row passes counts nothing, and neither does a stronger one.
  pub count-eq_zero_of_any :
      (p q : A → Bool)
      → ((x : A) → p x ≡ true → q x ≡ true)
      → (xs : List A) → any q xs ≡ false
      → count p xs ≡ 0
  count-eq_zero_of_any p q h [] e = refl
  count-eq_zero_of_any p q h (x ∷ xs) e = ground (arith, h x, count-eq_zero_of_any p q h xs)

  pub count-snoc_le_one :
      (p : A → Bool) (xs : List A) (x : A)
      → count p xs ≤ 1
      → (p x ≡ true → count p xs ≡ 0)
      → count p (xs ++ x ∷ []) ≤ 1
  count-snoc_le_one p xs x h new = ground (arith, count-append p xs (x ∷ []), new)

  -- An update that a search does not look at.
  pub find?-update_where :
      (p q : A → Bool) (f : A → A)
      → ((x : A) → p (if q x then f x else x) ≡ p x)
      → (xs : List A)
      → find? p (update_where q f xs) ≡ Option.map (λ x. if q x then f x else x) (find? p xs)
  find?-update_where p q f h [] = refl
  find?-update_where p q f h (x ∷ xs) =
      rw (h x)
        (elim (Bool-cases (p x)) [ inl e ↦ rw e | inr e ↦ rw e (find?-update_where p q f h xs) ])

  pub any-append : (p : A → Bool) (xs ys : List A) → any p (xs ++ ys) ≡ (any p xs || any p ys)
  any-append p [] ys = refl
  any-append p (x ∷ xs) ys = ground (arith, any-append p xs ys)

  pub all-append : (p : A → Bool) (xs ys : List A) → all p (xs ++ ys) ≡ (all p xs && all p ys)
  all-append p [] ys = refl
  all-append p (x ∷ xs) ys = ground (arith, all-append p xs ys)

  pub all-take : (p : A → Bool) (n : ℕ) (xs : List A) → all p xs ≡ true → all p (take n xs) ≡ true
  all-take p zero xs h = refl
  all-take p (suc n) [] h = refl
  all-take p (suc n) (x ∷ xs) h = ground (arith, all-take p n xs)

  pub all-filter : (p q : A → Bool) (xs : List A) → all p xs ≡ true → all p (filter q xs) ≡ true
  all-filter p q [] h = refl
  all-filter p q (x ∷ xs) h = ground (arith, all-filter p q xs)

  pub all_mono :
      (p q : A → Bool)
      → ((x : A) → p x ≡ true → q x ≡ true)
      → (xs : List A) → all p xs ≡ true
      → all q xs ≡ true
  all_mono p q h [] e = refl
  all_mono p q h (x ∷ xs) e = ground (arith, h x, all_mono p q h xs)

  pub all-update_where :
      (p q : A → Bool) (f : A → A)
      → ((x : A) → q x ≡ true → p x ≡ true → p (f x) ≡ true)
      → (xs : List A) → all p xs ≡ true
      → all p (update_where q f xs) ≡ true
  all-update_where p q f h [] e = refl
  all-update_where p q f h (x ∷ xs) e = ground (arith, h x, all-update_where p q f h xs)

  pub all-find? :
      (p q : A → Bool) (xs : List A) (x : A) → all p xs ≡ true → find? q xs ≡ some x → p x ≡ true
  all-find? p q [] x h e = absurd (ground arith)
  all-find? p q (y ∷ xs) x h e = ground (arith, all-find? p q xs x)

  pub count-filter_le : (p q : A → Bool) (xs : List A) → count p (filter q xs) ≤ count p xs
  count-filter_le p q [] = omega arith
  count-filter_le p q (x ∷ xs) = ground (arith, count-filter_le p q xs)

  pub count-take : (p : A → Bool) (n : ℕ) (xs : List A) → count p (take n xs) ≤ count p xs
  count-take p zero xs = omega arith
  count-take p (suc n) [] = omega arith
  count-take p (suc n) (x ∷ xs) = omega (arith, count-take p n xs)

  pub any-eq_false_of_find? : (p : A → Bool) (xs : List A) → find? p xs ≡ none → any p xs ≡ false
  any-eq_false_of_find? p [] h = refl
  any-eq_false_of_find? p (x ∷ xs) h = ground (arith, any-eq_false_of_find? p xs)

  pub find?-append_some :
      (p : A → Bool) (xs : List A) (x y : A) → find? p xs ≡ some x → find? p (xs ++ y ∷ []) ≡ some x
  find?-append_some p [] x y h = absurd (ground arith)
  find?-append_some p (z ∷ xs) x y h = elim (Bool-cases (p z)) [
    | inl e ↦ rw e (ground arith)
    | inr e ↦ rw e (find?-append_some p xs x y (ground arith))
  ]

  pub find?-append_none :
      (p : A → Bool) (xs : List A) (y : A)
      → find? p xs ≡ none
      → find? p (xs ++ y ∷ []) ≡ (if p y then some y else none)
  find?-append_none p [] y h = refl
  find?-append_none p (z ∷ xs) y h = elim (Bool-cases (p z)) [
    | inl e ↦ absurd (ground arith)
    | inr e ↦ rw e (find?-append_none p xs y (ground arith))
  ]

  pub find?-eq_none : (p : A → Bool) (xs : List A) → any p xs ≡ false → find? p xs ≡ none
  find?-eq_none p [] h = refl
  find?-eq_none p (x ∷ xs) h = ground (arith, find?-eq_none p xs)

  pub find?-append_other :
      (p : A → Bool) (xs : List A) (y : A) → p y ≡ false → find? p (xs ++ y ∷ []) ≡ find? p xs
  find?-append_other p [] y h = rw h
  find?-append_other p (x ∷ xs) y h = elim (Bool-cases (p x)) [
    | inl e ↦ rw e
    | inr e ↦ rw e (find?-append_other p xs y h)
  ]
