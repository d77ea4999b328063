-- ===== src/Users.antt =====
-- User administration: backend/src/kuuna_backend/domain/users/service.py. A role is its name: the table
-- that gives each name a key, one to one, is left out, and so are the keys of the assignments. A call
-- runs in one session, and no other session writes meanwhile; the texts fit their columns.
pub mod Rows
pub mod Invariant
mod Tests
use kuuna_support_agents.Common.{
  ℕ, ◌≡◌, Bool, true, false, ◌&&◌, ◌||◌, not, Option, none, some, List, [], ◌∷◌, ◌++◌, Text, codes,
  strip, is_empty, text_eq, contains, map, filter, find?, any, update_where, Result, ok, err,
  if◌then◌else◌, ltb, ◌==◌,
}
use kuuna_support_agents.Common.Json.{Json, Fields, bool, str, arr, obj, field, end, items}
use kuuna_support_agents.Audit.{AuditEvent, append_audit_event}
use kuuna_support_agents.Auth.Hashes.{Stdlib, hash_password}
use kuuna_support_agents.Auth.Password.{
  Characters, PasswordSettings, Violation, password_policy_violations,
}
use kuuna_support_agents.Auth.Login.{RoleName, role_eq, User, has_id}

pub record UserRole : Type 0 where
  pub user_id : ℕ
  pub role : RoleName

pub record GroupAssignment : Type 0 where
  pub user_id : ℕ
  pub provider_group_id : Text

pub record Store : Type 0 where
  pub users : List User
  pub user_roles : List UserRole
  pub group_assignments : List GroupAssignment
  pub audit : List AuditEvent

-- `raised` is an exception that is not of the service.
pub data UserServiceError : Type 0 where
  not_found conflict raised : UserServiceError
  password_policy : List Violation → UserServiceError

-- The clock, the settings, the salt that is drawn, and Python's texts.
pub record Env : Type 0 where
  pub now : ℕ
  pub lower : Text → Text
  pub show : ℕ → Text
  pub stdlib : Stdlib
  pub salt : List ℕ
  pub characters : Characters
  pub password_settings : PasswordSettings

abbrev pub Outcome : Type 0 → Type 0
Outcome A = Result UserServiceError A × Store

-- `get_user`
pub get_user : ℕ → Store → Result UserServiceError User
get_user i db = elim (find? (has_id i) db.users) [ none ↦ err not_found | some u ↦ ok u ]

abbrev pub role_of_user : ℕ → UserRole → Bool
role_of_user i r = r.user_id == i

abbrev pub group_of_user : ℕ → GroupAssignment → Bool
group_of_user i g = g.user_id == i

abbrev role_value : RoleName → Text
role_value RoleName.owner = codes "owner"
role_value RoleName.admin = codes "admin"
role_value RoleName.operator = codes "operator"
role_value RoleName.viewer = codes "viewer"

abbrev pub is_listed : List RoleName → RoleName → Bool
is_listed roles r = any (role_eq r) roles

-- The names in the order of their values.
abbrev pub sorted_names : List RoleName
sorted_names = RoleName.admin ∷ RoleName.operator ∷ RoleName.owner ∷ RoleName.viewer ∷ []

abbrev pub or_viewer : List RoleName → List RoleName
or_viewer [] = RoleName.viewer ∷ []
or_viewer (r ∷ rs) = r ∷ rs

-- The roles that `_replace_roles` stores.
pub unique_roles : List RoleName → List RoleName
unique_roles roles = or_viewer (filter (is_listed roles) sorted_names)

abbrev pub role_row : ℕ → RoleName → UserRole
role_row i r = record { user_id = i; role = r }

abbrev is_other_role : ℕ → UserRole → Bool
is_other_role i r = not (role_of_user i r)

-- `_replace_roles`
pub replace_roles : ℕ → List RoleName → List UserRole → List UserRole
unfolding unique_roles
replace_roles i roles rows = filter (is_other_role i) rows ++ map (role_row i) (unique_roles roles)

-- The order of texts by their characters.
pub text_lt : Text → Text → Bool
text_lt s [] = false
text_lt [] (d ∷ t) = true
text_lt (c ∷ s) (d ∷ t) = ltb c d || c == d && text_lt s t

pub insert_sorted : Text → List Text → List Text
insert_sorted t [] = t ∷ []
insert_sorted t (u ∷ us) =
    let rest = insert_sorted t us in if text_lt t u then t ∷ u ∷ us else u ∷ rest

-- `sorted(set(texts))`
pub sorted_set : List Text → List Text
unfolding insert_sorted
sorted_set [] = []
sorted_set (t ∷ ts) =
    let rest = sorted_set ts in if contains t rest then rest else insert_sorted t rest

abbrev pub group_row : ℕ → Text → GroupAssignment
group_row i g = record { user_id = i; provider_group_id = g }

abbrev is_other_group : ℕ → GroupAssignment → Bool
is_other_group i g = not (group_of_user i g)

-- `_replace_group_assignments`
pub replace_group_assignments : ℕ → List Text → List GroupAssignment → List GroupAssignment
unfolding sorted_set
replace_group_assignments i scope rows =
    filter (is_other_group i) rows ++ map (group_row i) (sorted_set scope)

abbrev texts : List Text → Json
texts ts = arr (items (map str ts))

abbrev pub add_event : Env → (actor : ℕ) → (event_type : Text) → (user : ℕ) → Fields → Store → Store
add_event e actor event_type user payload db = record db {
  audit = append_audit_event (some actor) event_type (codes "user") (e.show user) payload db.audit;
}

abbrev pub put_scope : ℕ → List Text → Store → Store
put_scope i scope db = record db {
  group_assignments = replace_group_assignments i scope db.group_assignments;
}

abbrev pub put_roles : ℕ → List RoleName → Store → Store
put_roles i roles db = record db { user_roles = replace_roles i roles db.user_roles }

-- The primary key and the unique constraint on the email.
abbrev pub takes : Text → ℕ → User → Bool
takes email i u = u.id == i || text_eq u.email email

pub record NewUser : Type 0 where
  pub email : Text
  pub password : Text
  pub roles : List RoleName
  pub group_scope : List Text
  pub must_change_password : Bool
  pub is_active : Bool

abbrev pub user_row : Env → ℕ → NewUser → (hash : Text) → User
user_row e i n hash = record {
  id = i;
  email = e.lower (strip n.email);
  password_hash = hash;
  is_active = n.is_active;
  must_change_password = n.must_change_password;
  failed_login_attempts = 0;
  locked_until = none;
  password_changed_at = some e.now;
}

abbrev pub add_user : User → Store → Store
add_user u db = record db { users = db.users ++ u ∷ [] }

-- The insertion, with the handler of `IntegrityError`, and what follows it.
abbrev pub insert_user : Env → (actor : ℕ) → NewUser → User → Store → Outcome User
insert_user e actor n u db = if any (takes u.email u.id) db.users then (err conflict, db) else (
  ok u,
  add_event e actor (codes "user.created") u.id
      (field "email" (str u.email) (field "roles" (texts (map role_value n.roles)) end))
      (put_scope u.id n.group_scope (put_roles u.id n.roles (add_user u db))),
)

abbrev pub with_hash : Env → (actor new_id : ℕ) → NewUser → Option Text → Store → Outcome User
with_hash e actor new_id n none db = (err raised, db)
with_hash e actor new_id n (some hash) db = insert_user e actor n (user_row e new_id n hash) db

abbrev pub with_violations :
    Env → (actor new_id : ℕ) → NewUser → List Violation → Store → Outcome User
with_violations e actor new_id n (v ∷ vs) db = (err (password_policy (v ∷ vs)), db)
with_violations e actor new_id n [] db =
    with_hash e actor new_id n (hash_password e.stdlib e.salt n.password) db

-- `create_user`
pub create_user : Env → (actor new_id : ℕ) → NewUser → Store → Outcome User
create_user e actor new_id n db =
    with_violations e actor new_id n
      (password_policy_violations e.password_settings e.characters n.password) db

abbrev or_kept : Option Bool → Bool → Bool
or_kept none old = old
or_kept (some b) old = b

abbrev pub flagged : (is_active must_change_password : Option Bool) → User → User
flagged active change u = record u {
  is_active = or_kept active u.is_active;
  must_change_password = or_kept change u.must_change_password;
}

abbrev flags : User → Json
flags u = obj (
    field "is_active" (bool u.is_active)
      (field "must_change_password" (bool u.must_change_password) end))

-- `update_user`
pub update_user :
    Env
    → (actor user_id : ℕ) → (is_active must_change_password : Option Bool) → Store
    → Outcome User
unfolding get_user
update_user e actor i active change db = elim (get_user i db) [
  | err x ↦ (err x, db)
  | ok u ↦ (
    ok (flagged active change u),
    add_event e actor (codes "user.updated") u.id
        (field "before" (flags u) (field "after" (flags (flagged active change u)) end))
        (record db { users = update_where (has_id i) (flagged active change) db.users }),
  )
]

-- `set_user_roles`
pub set_user_roles : Env → (actor user_id : ℕ) → List RoleName → Store → Outcome User
unfolding get_user
set_user_roles e actor i roles db = elim (get_user i db) [
  | err x ↦ (err x, db)
  | ok u ↦ (
    ok u,
    add_event e actor (codes "user.roles_updated") i
        (field "roles" (texts (map role_value roles)) end) (put_roles i roles db),
  )
]

-- `set_user_group_scope`
pub set_user_group_scope : Env → (actor user_id : ℕ) → List Text → Store → Outcome User
unfolding get_user
set_user_group_scope e actor i scope db = elim (get_user i db) [
  | err x ↦ (err x, db)
  | ok u ↦ (
    ok u,
    add_event e actor (codes "user.group_scope_updated") i
        (field "group_scope" (texts (sorted_set scope)) end) (put_scope i scope db),
  )
]

abbrev is_other_user : ℕ → User → Bool
is_other_user i u = not (has_id i u)

abbrev is_actor : ℕ → Option ℕ → Bool
is_actor i none = false
is_actor i (some j) = j == i

-- The foreign key of an event to the user who acted is set to null.
abbrev without_actor : ℕ → AuditEvent → AuditEvent
without_actor i a = record a {
  actor_user_id = (if is_actor i a.actor_user_id then none else a.actor_user_id);
}

abbrev pub delete_rows : ℕ → Store → Store
delete_rows i db = record db {
  users = filter (is_other_user i) db.users;
  user_roles = filter (is_other_role i) db.user_roles;
  group_assignments = filter (is_other_group i) db.group_assignments;
  audit = map (without_actor i) db.audit;
}

-- `hard_delete_user`, with the rows that the foreign keys delete.
pub hard_delete_user : Env → (actor user_id : ℕ) → Store → Outcome User
unfolding get_user
hard_delete_user e actor i db = elim (get_user i db) [
  | err x ↦ (err x, db)
  | ok u ↦ (
    ok u,
    delete_rows i
        (add_event e actor (codes "user.hard_deleted") i (field "email" (str u.email) end) db),
  )
]
