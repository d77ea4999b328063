-- ===== src/Users/Rows.antt =====
-- The rows of roles and groups that `_replace_roles` and `_replace_group_assignments` of
-- backend/src/kuuna_backend/domain/users/service.py leave.
use kuuna_support_agents.Common.{
  ℕ, ◌+◌, ◌≤◌, ◌≡◌, refl, Bool, true, false, ◌&&◌, ◌||◌, not, List, [], ◌∷◌, ◌++◌, Text, is_empty,
  text_eq, text_eq_iff, count-eq_zero_of_contains, contains, map, filter, any, all, count,
  count-append, any-append, if◌then◌else◌, ◌==◌, arith, Bool-cases, inl, inr,
}
use kuuna_support_agents.Auth.Login.{RoleName, role_eq}
use kuuna_support_agents.Users.{
  UserRole, GroupAssignment, role_of_user, group_of_user, role_row, group_row, text_lt, is_listed,
  sorted_names, or_viewer, unique_roles, replace_roles, insert_sorted, sorted_set,
  replace_group_assignments,
}

-- Rows that belong to a user, of whom those of one are replaced.
module _ {ℓ} {A : Type ℓ} (key : A → ℕ) where
  abbrev pub of : ℕ → A → Bool
  of i x = key x == i

  abbrev pub others : ℕ → List A → List A
  others i = filter (λ x. not (of i x))

  pub any-others :
      (i j : ℕ) (rows : List A) → any (of j) (others i rows) ≡ (not (i == j) && any (of j) rows)
  any-others i j [] = ground arith
  any-others i j (x ∷ rows) = ground (arith, any-others i j rows)

  any-own :
      (i j : ℕ) (new : List A)
      → all (of i) new ≡ true
      → any (of j) new ≡ (not (is_empty new) && (i == j))
  any-own i j [] h = refl
  any-own i j (x ∷ new) h = ground (arith, any-own i j new)

  pub count-others :
      (i j : ℕ) (p : A → Bool)
      → ((x : A) → p x ≡ true → of j x ≡ true)
      → (rows : List A) → count p (others i rows) ≤ (if i == j then 0 else count p rows)
  count-others i j p h [] = ground arith
  count-others i j p h (x ∷ rows) = ground (arith, h x, count-others i j p h rows)

  count-own :
      (i j : ℕ) (p : A → Bool)
      → ((x : A) → p x ≡ true → of j x ≡ true)
      → (new : List A) → all (of i) new ≡ true
      → count p new ≤ (if i == j then count p new else 0)
  count-own i j p h [] e = ground arith
  count-own i j p h (x ∷ new) e = ground (arith, h x, count-own i j p h new)

  count-replaced :
      (i j : ℕ) (p : A → Bool)
      → ((x : A) → p x ≡ true → of j x ≡ true)
      → (rows new : List A) → all (of i) new ≡ true
      → count p rows ≤ 1
      → count p new ≤ 1
      → count p (others i rows ++ new) ≤ 1
  count-replaced i j p h rows new e old own = ground (
    arith,
    count-append p (others i rows) new,
    count-others i j p h rows,
    count-own i j p h new e,
  )

abbrev pub is_role : ℕ → RoleName → UserRole → Bool
is_role i r row = row.user_id == i && role_eq r row.role

abbrev pub is_group : ℕ → Text → GroupAssignment → Bool
is_group i g row = row.user_id == i && text_eq g row.provider_group_id

all-role_rows : (i : ℕ) (rs : List RoleName) → all (role_of_user i) (map (role_row i) rs) ≡ true
all-role_rows i [] = refl
all-role_rows i (r ∷ rs) = ground (arith, all-role_rows i rs)

count-role_rows :
    (i j : ℕ) (r : RoleName) (rs : List RoleName)
    → count (is_role j r) (map (role_row i) rs) ≤ count (role_eq r) rs
count-role_rows i j r [] = omega arith
count-role_rows i j r (s ∷ rs) = ground (arith, count-role_rows i j r rs)

count-filter_names :
    (r : RoleName) (f : RoleName → Bool) (rs : List RoleName)
    → count (role_eq r) (filter f rs) ≤ count (role_eq r) rs
count-filter_names r f [] = omega arith
count-filter_names r f (s ∷ rs) = ground (arith, count-filter_names r f rs)

count-or_viewer :
    (r : RoleName) (rs : List RoleName)
    → count (role_eq r) rs ≤ 1
    → count (role_eq r) (or_viewer rs) ≤ 1
count-or_viewer r [] h = ground arith
count-or_viewer r (s ∷ rs) h = h

count-sorted_names : (r : RoleName) → count (role_eq r) sorted_names ≤ 1
count-sorted_names RoleName.owner = omega arith
count-sorted_names RoleName.admin = omega arith
count-sorted_names RoleName.operator = omega arith
count-sorted_names RoleName.viewer = omega arith

count-unique_roles :
    (r : RoleName) (roles : List RoleName) → count (role_eq r) (unique_roles roles) ≤ 1
unfolding unique_roles
count-unique_roles r roles =
    let kept = count-filter_names r (is_listed roles) sorted_names in
    let all_ = count-sorted_names r in
    count-or_viewer r (filter (is_listed roles) sorted_names) (omega arith)

or_viewer-is_empty : (rs : List RoleName) → is_empty (or_viewer rs) ≡ false
or_viewer-is_empty [] = refl
or_viewer-is_empty (r ∷ rs) = refl

role_rows-is_empty : (i : ℕ) (rs : List RoleName) → is_empty (map (role_row i) rs) ≡ is_empty rs
role_rows-is_empty i [] = refl
role_rows-is_empty i (r ∷ rs) = refl

all-group_rows : (i : ℕ) (gs : List Text) → all (group_of_user i) (map (group_row i) gs) ≡ true
all-group_rows i [] = refl
all-group_rows i (g ∷ gs) = ground (arith, all-group_rows i gs)

count-group_rows :
    (i j : ℕ) (g : Text) (gs : List Text)
    → count (is_group j g) (map (group_row i) gs) ≤ count (text_eq g) gs
count-group_rows i j g [] = omega arith
count-group_rows i j g (h ∷ gs) = ground (arith, count-group_rows i j g gs)

count-insert_sorted :
    (g t : Text) (gs : List Text)
    → count (text_eq g) (insert_sorted t gs) ≡ (if text_eq g t then 1 else 0) + count (text_eq g) gs
unfolding insert_sorted
count-insert_sorted g t [] = refl
count-insert_sorted g t (u ∷ us) = elim (Bool-cases (text_lt t u)) [
  | inl e ↦ rw e refl
  | inr e ↦ rw e (ground (arith, count-insert_sorted g t us))
]

count-eq_zero_of_missing :
    (g t : Text) (gs : List Text)
    → text_eq g t ≡ true
    → contains t gs ≡ false
    → count (text_eq g) gs ≡ 0
count-eq_zero_of_missing g t gs same new =
    let e : g ≡ t = (text_eq_iff g t).0 same in count-eq_zero_of_contains g gs (rw e new)

count-sorted_set : (g : Text) (ts : List Text) → count (text_eq g) (sorted_set ts) ≤ 1
unfolding sorted_set
count-sorted_set g [] = omega arith
count-sorted_set g (t ∷ ts) = elim (Bool-cases (contains t (sorted_set ts))) [
  | inl e ↦ rw e (count-sorted_set g ts)
  | inr e ↦ rw e (
      ground (
        arith,
        count-insert_sorted g t (sorted_set ts),
        count-sorted_set g ts,
        count-eq_zero_of_missing g t (sorted_set ts),
      ))
]

pub replaced-roles :
    (i : ℕ) (names : List RoleName) (rows : List UserRole) (j : ℕ) (r : RoleName)
    → count (is_role j r) rows ≤ 1
    → count (is_role j r) (replace_roles i names rows) ≤ 1
unfolding replace_roles
replaced-roles i names rows j r h =
    let new = map (role_row i) (unique_roles names) in
    let few = count-role_rows i j r (unique_roles names) in
    let one = count-unique_roles r names in
    count-replaced (λ x. x.user_id) i j (is_role j r) (λ x e. ground arith) rows new
      (all-role_rows i (unique_roles names)) h (omega arith)

pub any-replaced_roles :
    (i : ℕ) (names : List RoleName) (rows : List UserRole) (j : ℕ)
    → any (role_of_user j) (replace_roles i names rows) ≡ (i == j || any (role_of_user j) rows)
unfolding replace_roles unique_roles
any-replaced_roles i names rows j =
    let new = map (role_row i) (unique_roles names) in
    ground (
      arith,
      any-append (role_of_user j) (filter (λ x. not (role_of_user i x)) rows) new,
      any-others (λ x. x.user_id) i j rows,
      any-own (λ x. x.user_id) i j new (all-role_rows i (unique_roles names)),
      role_rows-is_empty i (unique_roles names),
      or_viewer-is_empty (filter (is_listed names) sorted_names),
    )

pub replaced-groups :
    (i : ℕ) (scope : List Text) (rows : List GroupAssignment) (j : ℕ) (g : Text)
    → count (is_group j g) rows ≤ 1
    → count (is_group j g) (replace_group_assignments i scope rows) ≤ 1
unfolding replace_group_assignments
replaced-groups i scope rows j g h =
    let new = map (group_row i) (sorted_set scope) in
    let few = count-group_rows i j g (sorted_set scope) in
    let one = count-sorted_set g scope in
    count-replaced (λ x. x.user_id) i j (is_group j g) (λ x e. ground arith) rows new
      (all-group_rows i (sorted_set scope)) h (omega arith)
