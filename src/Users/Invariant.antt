-- ===== src/Users/Invariant.antt =====
-- What the calls of backend/src/kuuna_backend/domain/users/service.py keep.
use kuuna_support_agents.Common.{
  ℕ, ◌≤◌, ◌≡◌, refl, sym, subst, ◌∙◌, Bool, true, false, ◌||◌, not, Option, none, some, List, [],
  ◌∷◌, Text, codes, text_eq_iff, find?, any, count, count-snoc_le_one, count-eq_zero_of_any,
  any-append, update_where, count-update_where_mono, count-filter_le, ==_iff, ◌⊎◌, ok, err, ◌==◌,
  arith, Bool-cases, Option-cases, inl, inr,
}
use kuuna_support_agents.Common.Json.{str, field, end}
use kuuna_support_agents.Audit.{AuditEvent}
use kuuna_support_agents.Auth.Hashes.{hash_password}
use kuuna_support_agents.Auth.Password.{Violation, password_policy_violations}
use kuuna_support_agents.Auth.Login.{RoleName, User, has_id, has_email}
use kuuna_support_agents.Users.{
  Store, Env, not_found, delete_rows, NewUser, role_of_user, takes, user_row, add_user, put_roles,
  put_scope, insert_user, flagged, get_user, with_hash, with_violations, add_event, create_user,
  update_user, set_user_roles, set_user_group_scope, hard_delete_user,
}
use kuuna_support_agents.Users.Rows.{
  is_role, is_group, replaced-roles, any-replaced_roles, replaced-groups, any-others, count-others,
}

-- The keys and the emails of the users are different; exactly the users have roles, each at most once;
-- and no group is assigned twice to a user.
pub record IsValid (db : Store) : Type 0 where
  pub ids : (i : ℕ) → count (has_id i) db.users ≤ 1
  pub emails : (m : Text) → count (has_email m) db.users ≤ 1
  pub have_roles : (i : ℕ) → any (role_of_user i) db.user_roles ≡ any (has_id i) db.users
  pub roles : (i : ℕ) (r : RoleName) → count (is_role i r) db.user_roles ≤ 1
  pub groups : (i : ℕ) (g : Text) → count (is_group i g) db.group_assignments ≤ 1

any_of_find? : (p : User → Bool) (us : List User) (u : User) → find? p us ≡ some u → any p us ≡ true
any_of_find? p [] u h = absurd (ground arith)
any_of_find? p (v ∷ us) u h = ground (arith, any_of_find? p us u)

get_user-cases :
    (i : ℕ) (db : Store)
    → (get_user i db ≡ err not_found)
      ⊎ ((u : User) × (get_user i db ≡ ok u) × (any (has_id i) db.users ≡ true))
unfolding get_user
get_user-cases i db = elim (Option-cases (find? (has_id i) db.users)) [
  | inl f ↦ inl (rw (get_user, f) refl)
  | inr (u, f) ↦ inr (u, rw (get_user, f) refl, any_of_find? (has_id i) db.users u f)
]

same_email :
    (u : User) (m : Text) (x : User)
    → has_email m u ≡ true
    → has_email m x ≡ true
    → takes u.email u.id x ≡ true
same_email u m x e k =
    let a : u.email ≡ m = (text_eq_iff u.email m).0 e in
    let b : x.email ≡ m = (text_eq_iff x.email m).0 k in
    let same = (text_eq_iff x.email u.email).1 (b ∙ sym a) in ground arith

had_roles :
    (i j : ℕ) (db : Store)
    → any (has_id i) db.users ≡ true
    → IsValid db
    → (i == j || any (role_of_user j) db.user_roles) ≡ any (has_id j) db.users
had_roles i j db there h = elim (Bool-cases (i == j)) [
  | inr e ↦ rw e (h.have_roles j)
  | inl e ↦
      let same : i ≡ j = (==_iff i j).0 e in
      let found : any (has_id j) db.users ≡ true =
        subst (λ k. any (has_id k) db.users ≡ true) same there in
      rw (e, found) refl
]

add_user-IsValid :
    (u : User) (names : List RoleName) (scope : List Text) (db : Store)
    → any (takes u.email u.id) db.users ≡ false
    → IsValid db
    → IsValid (put_scope u.id scope (put_roles u.id names (add_user u db)))
add_user-IsValid u names scope db new h = record {
  ids = λ i. count-snoc_le_one (has_id i) db.users u (h.ids i) (λ e.
      count-eq_zero_of_any (has_id i) (takes u.email u.id) (λ x k. ground arith) db.users new);
  emails = λ m. count-snoc_le_one (has_email m) db.users u (h.emails m) (λ e.
      count-eq_zero_of_any (has_email m) (takes u.email u.id) (λ x k. same_email u m x e k) db.users
        new);
  have_roles = λ i. ground (
    arith,
    any-replaced_roles u.id names db.user_roles i,
    any-append (has_id i) db.users (u ∷ []),
    h.have_roles i,
  );
  roles = λ i r. replaced-roles u.id names db.user_roles i r (h.roles i r);
  groups = λ i g. replaced-groups u.id scope db.group_assignments i g (h.groups i g);
}

put_roles-IsValid :
    (i : ℕ) (names : List RoleName) (db : Store)
    → any (has_id i) db.users ≡ true
    → IsValid db
    → IsValid (put_roles i names db)
put_roles-IsValid i names db there h = record {
  ids = h.ids;
  emails = h.emails;
  have_roles = λ j. any-replaced_roles i names db.user_roles j ∙ had_roles i j db there h;
  roles = λ j r. replaced-roles i names db.user_roles j r (h.roles j r);
  groups = h.groups;
}

put_scope-IsValid :
    (i : ℕ) (scope : List Text) (db : Store) → IsValid db → IsValid (put_scope i scope db)
put_scope-IsValid i scope db h = record {
  ids = h.ids;
  emails = h.emails;
  have_roles = h.have_roles;
  roles = h.roles;
  groups = λ j g. replaced-groups i scope db.group_assignments j g (h.groups j g);
}

any-flagged :
    (i j : ℕ) (active change : Option Bool) (us : List User)
    → any (has_id j) (update_where (has_id i) (flagged active change) us) ≡ any (has_id j) us
any-flagged i j active change [] = refl
any-flagged i j active change (u ∷ us) = ground (arith, any-flagged i j active change us)

flagged-IsValid :
    (i : ℕ) (active change : Option Bool) (db : Store)
    → IsValid db
    → IsValid (record db { users = update_where (has_id i) (flagged active change) db.users })
flagged-IsValid i active change db h = record {
  ids = λ j.
      let few =
        count-update_where_mono (has_id i) (has_id j) (has_id j) (flagged active change)
          (λ x k. ground arith) db.users in
      let old = h.ids j in omega arith;
  emails = λ m.
      let few =
        count-update_where_mono (has_id i) (has_email m) (has_email m) (flagged active change)
          (λ x k. ground arith) db.users in
      let old = h.emails m in omega arith;
  have_roles = λ j. h.have_roles j ∙ sym (any-flagged i j active change db.users);
  roles = h.roles;
  groups = h.groups;
}

delete_rows-IsValid : (i : ℕ) (db : Store) → IsValid db → IsValid (delete_rows i db)
delete_rows-IsValid i db h = record {
  ids = λ j. ground (arith, count-others (λ u. u.id) i j (has_id j) (λ x k. k) db.users, h.ids j);
  emails = λ m.
      let few = count-filter_le (has_email m) (λ u. not (has_id i u)) db.users in
      let old = h.emails m in omega arith;
  have_roles = λ j.
      any-others (λ r. r.user_id) i j db.user_roles
      ∙ rw (h.have_roles j) (sym (any-others (λ u. u.id) i j db.users));
  roles = λ j r. ground (
    arith,
    count-others (λ x. x.user_id) i j (is_role j r) (λ x k. ground arith) db.user_roles,
    h.roles j r,
  );
  groups = λ j g. ground (
    arith,
    count-others (λ x. x.user_id) i j (is_group j g) (λ x k. ground arith) db.group_assignments,
    h.groups j g,
  );
}

-- The audit trail is not part of it.
logged :
    {db : Store} {events : List AuditEvent} → IsValid db → IsValid (record db { audit = events })
logged h = record {
  ids = h.ids;
  emails = h.emails;
  have_roles = h.have_roles;
  roles = h.roles;
  groups = h.groups;
}

insert_user-IsValid :
    (e : Env) (actor : ℕ) (n : NewUser) (u : User) (db : Store)
    → IsValid db
    → IsValid (insert_user e actor n u db).1
insert_user-IsValid e actor n u db h = elim (Bool-cases (any (takes u.email u.id) db.users)) [
  | inl t ↦ rw t h
  | inr t ↦ rw t (logged (add_user-IsValid u n.roles n.group_scope db t h))
]

with_hash-IsValid :
    (e : Env) (actor i : ℕ) (n : NewUser) (o : Option Text) (db : Store)
    → IsValid db
    → IsValid (with_hash e actor i n o db).1
with_hash-IsValid e actor i n none db h = h
with_hash-IsValid e actor i n (some hash) db h =
    insert_user-IsValid e actor n (user_row e i n hash) db h

with_violations-IsValid :
    (e : Env) (actor i : ℕ) (n : NewUser) (vs : List Violation) (db : Store)
    → IsValid db
    → IsValid (with_violations e actor i n vs db).1
with_violations-IsValid e actor i n (v ∷ vs) db h = h
with_violations-IsValid e actor i n [] db h =
    with_hash-IsValid e actor i n (hash_password e.stdlib e.salt n.password) db h

create_user-IsValid :
    (e : Env) (actor i : ℕ) (n : NewUser) (db : Store)
    → IsValid db
    → IsValid (create_user e actor i n db).1
unfolding create_user
create_user-IsValid e actor i n db h =
    with_violations-IsValid e actor i n
      (password_policy_violations e.password_settings e.characters n.password) db h

update_user-IsValid :
    (e : Env) (actor i : ℕ) (active change : Option Bool) (db : Store)
    → IsValid db
    → IsValid (update_user e actor i active change db).1
unfolding update_user
update_user-IsValid e actor i active change db h = elim (get_user-cases i db) [
  | inl q ↦ rw (update_user, q) h
  | inr (u, q, there) ↦ rw (update_user, q) (logged (flagged-IsValid i active change db h))
]

set_user_roles-IsValid :
    (e : Env) (actor i : ℕ) (names : List RoleName) (db : Store)
    → IsValid db
    → IsValid (set_user_roles e actor i names db).1
unfolding set_user_roles
set_user_roles-IsValid e actor i names db h = elim (get_user-cases i db) [
  | inl q ↦ rw (set_user_roles, q) h
  | inr (u, q, there) ↦ rw (set_user_roles, q) (logged (put_roles-IsValid i names db there h))
]

set_user_group_scope-IsValid :
    (e : Env) (actor i : ℕ) (scope : List Text) (db : Store)
    → IsValid db
    → IsValid (set_user_group_scope e actor i scope db).1
unfolding set_user_group_scope
set_user_group_scope-IsValid e actor i scope db h = elim (get_user-cases i db) [
  | inl q ↦ rw (set_user_group_scope, q) h
  | inr (u, q, there) ↦ rw (set_user_group_scope, q) (logged (put_scope-IsValid i scope db h))
]

hard_delete_user-IsValid :
    (e : Env) (actor i : ℕ) (db : Store) → IsValid db → IsValid (hard_delete_user e actor i db).1
unfolding hard_delete_user
hard_delete_user-IsValid e actor i db h = elim (get_user-cases i db) [
  | inl q ↦ rw (hard_delete_user, q) h
  | inr (u, q, there) ↦
      rw (hard_delete_user, q)
        (delete_rows-IsValid i
          (add_event e actor (codes "user.hard_deleted") i (field "email" (str u.email) end) db)
          (logged h))
]

-- The calls, each in its own environment.
pub data Call : Type 0 where
  create : Env → (actor new_id : ℕ) → NewUser → Call
  update : Env → (actor user_id : ℕ) → (is_active must_change_password : Option Bool) → Call
  set_roles : Env → (actor user_id : ℕ) → List RoleName → Call
  set_scope : Env → (actor user_id : ℕ) → List Text → Call
  delete : Env → (actor user_id : ℕ) → Call

abbrev pub apply : Call → Store → Store
apply (create e actor i n) db = (create_user e actor i n db).1
apply (update e actor i active change) db = (update_user e actor i active change db).1
apply (set_roles e actor i names) db = (set_user_roles e actor i names db).1
apply (set_scope e actor i scope) db = (set_user_group_scope e actor i scope db).1
apply (delete e actor i) db = (hard_delete_user e actor i db).1

abbrev pub history : List Call → Store → Store
history [] db = db
history (c ∷ cs) db = history cs (apply c db)

apply-IsValid : (c : Call) (db : Store) → IsValid db → IsValid (apply c db)
apply-IsValid (create e actor i n) db h = create_user-IsValid e actor i n db h
apply-IsValid (update e actor i active change) db h =
    update_user-IsValid e actor i active change db h
apply-IsValid (set_roles e actor i names) db h = set_user_roles-IsValid e actor i names db h
apply-IsValid (set_scope e actor i scope) db h = set_user_group_scope-IsValid e actor i scope db h
apply-IsValid (delete e actor i) db h = hard_delete_user-IsValid e actor i db h

-- Every sequence of calls keeps this: the keys and the emails of the users are different; a user has a
-- role exactly as long as he is there; no role and no group is assigned twice to a user.
pub users_history-IsValid :
    (calls : List Call) (db : Store) → IsValid db → IsValid (history calls db)
users_history-IsValid [] db h = h
users_history-IsValid (c ∷ cs) db h = users_history-IsValid cs (apply c db) (apply-IsValid c db h)
