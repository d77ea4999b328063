-- ===== src/Auth/Login.antt =====
-- `login_user`, `_register_failed_login`, `change_password` and `_resolve_scope_for_user` of
-- backend/src/kuuna_backend/domain/auth/service.py. A time is a number of seconds. The environment
-- holds the clock, the settings, the salt that is drawn and what makes an access token; the tables of
-- roles and groups are what their queries answer.
pub mod Lockout
use kuuna_support_agents.Common.{
  ℕ, suc, ◌+◌, ◌≡◌, Bool, true, false, not, Option, none, some, List, [], ◌∷◌, ◌++◌, Text, text_eq,
  strip, find?, any, update_where, Result, ok, err, if◌then◌else◌, ltb, leb, max, ◌==◌, is_empty,
}
use kuuna_support_agents.Auth.Hashes.{Stdlib, hash_password, verify_password}
use kuuna_support_agents.Auth.Password.{
  Characters, PasswordSettings, Violation, password_policy_violations,
}

pub data RoleName : Type 0 where
  owner admin operator viewer : RoleName

abbrev pub role_eq : RoleName → RoleName → Bool
role_eq RoleName.owner RoleName.owner = true
role_eq RoleName.admin RoleName.admin = true
role_eq RoleName.operator RoleName.operator = true
role_eq RoleName.viewer RoleName.viewer = true
role_eq _ _ = false

pub record User : Type 0 where
  pub id : ℕ
  pub email : Text
  pub password_hash : Text
  pub is_active : Bool
  pub must_change_password : Bool
  pub failed_login_attempts : ℕ
  pub locked_until : Option ℕ
  pub password_changed_at : Option ℕ

pub data EventType : Type 0 where
  login account_locked password_changed : EventType

pub record AuditEvent : Type 0 where
  pub event_type : EventType
  pub actor_user_id : ℕ

pub record Store : Type 0 where
  pub users : List User
  pub audit_events : List AuditEvent
  pub role_names : ℕ → List RoleName
  pub assigned_groups : ℕ → List Text

pub record Env : Type 0 where
  pub now : ℕ
  pub auth_lockout_threshold : ℕ
  pub auth_lockout_seconds : ℕ
  pub auth_token_ttl_seconds : ℕ
  pub stdlib : Stdlib
  pub characters : Characters
  pub password_settings : PasswordSettings
  pub salt : List ℕ
  pub issue_access_token : ℕ → RoleName → List Text → Text

pub data AuthError : Type 0 where
  authentication_failed inactive : AuthError
  -- The exception of `hashlib.scrypt`.
  scrypt_error : AuthError
  user_locked : (locked_until : ℕ) → AuthError
  password_policy : List Violation → AuthError

pub record AuthLoginResult : Type 0 where
  pub access_token : Text
  pub expires_at : ℕ
  pub user : User
  pub role : RoleName
  pub group_scope : List Text

abbrev has_role : RoleName → List RoleName → Bool
has_role r = any (role_eq r)

-- `_resolve_scope_for_user`
pub resolve_scope_for_user : ℕ → Store → RoleName × List Text
resolve_scope_for_user i db =
    let names = db.role_names i in
    let role : RoleName =
      if is_empty names
      then RoleName.viewer
      else (if has_role RoleName.owner names
          then RoleName.owner
          else (if has_role RoleName.admin names
              then RoleName.admin
              else (if has_role RoleName.operator names
                  then RoleName.operator
                  else RoleName.viewer))) in
    (role, db.assigned_groups i)

abbrev pub has_id : ℕ → User → Bool
has_id i u = u.id == i

abbrev pub has_email : Text → User → Bool
has_email e u = text_eq u.email e

abbrev set_user : (User → User) → ℕ → Store → Store
set_user f i db = record db { users = update_where (has_id i) f db.users }

abbrev append_audit_event : EventType → ℕ → Store → Store
append_audit_event t i db = record db {
  audit_events = db.audit_events ++ (record { event_type = t; actor_user_id = i }) ∷ [];
}

abbrev pub count_failure : User → User
count_failure u = record u { failed_login_attempts = suc u.failed_login_attempts }

abbrev pub lock_until : ℕ → User → User
lock_until t u = record u { locked_until = some t; failed_login_attempts = 0 }

-- `_register_failed_login`
register_failed_login : Env → User → Store → Store
register_failed_login e user db =
    if leb e.auth_lockout_threshold (suc user.failed_login_attempts)
    then append_audit_event EventType.account_locked user.id
        (set_user (lock_until (e.now + e.auth_lockout_seconds)) user.id db)
    else set_user count_failure user.id db

abbrev pub clear_failures : User → User
clear_failures u = record u { failed_login_attempts = 0; locked_until = none }

abbrev is_locked : ℕ → Option ℕ → Bool
is_locked now none = false
is_locked now (some t) = ltb now t

abbrev lock_time : Option ℕ → ℕ
lock_time none = 0
lock_time (some t) = t

accept_login : Env → User → Store → Result AuthError AuthLoginResult × Store
accept_login e user db =
    let (role, group_scope) = resolve_scope_for_user user.id db in
    (
      ok (record {
        access_token = e.issue_access_token user.id role group_scope;
        expires_at = e.now + max 60 e.auth_token_ttl_seconds;
        user = clear_failures user;
        role = role;
        group_scope = group_scope;
      }),
      append_audit_event EventType.login user.id (set_user clear_failures user.id db),
    )

login_found : Env → Text → User → Store → Result AuthError AuthLoginResult × Store
unfolding register_failed_login accept_login
login_found e password user db =
    if not user.is_active
    then (err inactive, db)
    else (if is_locked e.now user.locked_until
        then (err (user_locked (lock_time user.locked_until)), db)
        else (if not (verify_password e.stdlib password user.password_hash)
            then (err authentication_failed, register_failed_login e user db)
            else accept_login e user db))

-- `login_user`
pub login_user : Env → (email password : Text) → Store → Result AuthError AuthLoginResult × Store
unfolding login_found
login_user e email password db =
    elim (find? (has_email (e.characters.lower (strip email))) db.users) [
      | none ↦ (err authentication_failed, db)
      | some user ↦ login_found e password user db
    ]

abbrev pub new_password : Env → Text → User → User
new_password e hash u = record u {
  password_hash = hash;
  must_change_password = false;
  password_changed_at = some e.now;
  failed_login_attempts = 0;
  locked_until = none;
}

store_password : Env → Option Text → User → Store → Result AuthError User × Store
store_password e none user db = (err scrypt_error, db)
store_password e (some hash) user db = (
  ok (new_password e hash user),
  append_audit_event EventType.password_changed user.id (set_user (new_password e hash) user.id db),
)

change_found : Env → (current new : Text) → User → Store → Result AuthError User × Store
unfolding store_password
change_found e current new user db =
    if not (verify_password e.stdlib current user.password_hash)
    then (err authentication_failed, db)
    else (let violations = password_policy_violations e.password_settings e.characters new in
        if not (is_empty violations)
        then (err (password_policy violations), db)
        else store_password e (hash_password e.stdlib e.salt new) user db)

-- `change_password`
pub change_password : Env → ℕ → (current new : Text) → Store → Result AuthError User × Store
unfolding change_found
change_password e i current new db = elim (find? (has_id i) db.users) [
  | none ↦ (err authentication_failed, db)
  | some user ↦ change_found e current new user db
]
