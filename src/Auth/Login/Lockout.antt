-- ===== src/Auth/Login/Lockout.antt =====
-- The lockout after failed logins: `login_user` and `_register_failed_login` of
-- backend/src/kuuna_backend/domain/auth/service.py.
use kuuna_support_agents.Common.{
  ℕ, suc, ◌+◌, ◌<◌, ◌≡◌, refl, ap, ◌∙◌, sym, Bool, true, false, not, Option, none, some, List, [],
  ◌∷◌, Text, find?, ok, err, if◌then◌else◌, ltb, leb, arith, Bool-cases, inl, inr,
  find?-update_where, strip, text_eq, length, text_eq, subst, ◌&&◌, ◌↔◌, Option-cases,
}
use mathlib.Core.Option
use kuuna_support_agents.Auth.Hashes.{verify_password}
use kuuna_support_agents.Auth.Login.{
  AuthLoginResult, accept_login, User, Store, Env, authentication_failed, user_locked, has_email,
  has_id, count_failure, lock_until, set_user, register_failed_login, is_locked, login_found,
  login_user, is_locked,
}

-- A user, in a state in which a password is looked at.
abbrev pub IsOpen : Env → Text → Store → User → Type 0
IsOpen e email db u =
    (find? (has_email (e.characters.lower (strip email))) db.users ≡ some u)
    × (u.is_active ≡ true)
    × (is_locked e.now u.locked_until ≡ false)

login_found_accepts :
    (e : Env) (password : Text) (u : User) (db : Store)
    → ((r : AuthLoginResult) × ((login_found e password u db).0 ≡ ok r)) ↔ (
        (u.is_active ≡ true)
        × (is_locked e.now u.locked_until ≡ false)
        × (verify_password e.stdlib password u.password_hash ≡ true))
unfolding login_found accept_login
login_found_accepts e password u db = (
  λ (r, eq). (ground arith, ground arith, ground arith),
  λ (active, unlocked, right). rw (active, unlocked, right) (_, refl),
)

login_missing :
    (e : Env) (email password : Text) (db : Store)
    → find? (has_email (e.characters.lower (strip email))) db.users ≡ none
    → (login_user e email password db).0 ≡ err authentication_failed
unfolding login_user
login_missing e email password db h = rw (h, login_user)

login_user_found :
    (e : Env) (email password : Text) (db : Store) (u : User)
    → find? (has_email (e.characters.lower (strip email))) db.users ≡ some u
    → login_user e email password db ≡ login_found e password u db
unfolding login_user
login_user_found e email password db u h = rw (h, login_user)

-- A login succeeds exactly for a user that is found under the address, is active, is not locked, and
-- has this password.
pub login_accepts :
    (e : Env) (email password : Text) (db : Store)
    → ((r : AuthLoginResult) × ((login_user e email password db).0 ≡ ok r)) ↔ (
        (u : User) × IsOpen e email db u
        × (verify_password e.stdlib password u.password_hash ≡ true))
login_accepts e email password db =
    elim (Option-cases (find? (has_email (e.characters.lower (strip email))) db.users)) [
      | inl missing ↦ (
        λ (r, eq). absurd (ground (arith, login_missing e email password db missing)),
        λ (u, (found, active, unlocked), right). absurd (ground arith),
      )
      | inr (u, found) ↦
          let iff = login_found_accepts e password u db in
          let same = ap (λ x. x.0) (login_user_found e email password db u found) in
          (
            λ (r, eq).
                let (active, unlocked, right) = iff.0 (r, sym same ∙ eq) in
                (u, (found, active, unlocked), right),
            λ (v, (found', active, unlocked), right).
                let one : v ≡ u = ground arith in
                let (r, eq) =
                  iff.1 (rw (sym one) active, rw (sym one) unlocked, rw (sym one) right) in
                (r, same ∙ eq),
          )
    ]

-- The users after the rows of one of them have been rewritten.
find-set_user :
    (m : Text) (u : User) (f : User → User) (db : Store)
    → ((x : User) → (f x).email ≡ x.email)
    → find? (has_email m) db.users ≡ some u
    → find? (has_email m) (set_user f u.id db).users ≡ some (f u)
find-set_user m u f db h found =
    let keeps : (x : User) → has_email m (if has_id u.id x then f x else x) ≡ has_email m x = λ x.
      elim (Bool-cases (has_id u.id x)) [
        | inl e ↦ rw e (ap (λ y. text_eq y m) (h x))
        | inr e ↦ rw e
      ] in
    find?-update_where (has_email m) (has_id u.id) f keeps db.users
    ∙ ap (Option.map (λ x. if has_id u.id x then f x else x)) found
    ∙ ap some (ground arith)

wrong_password :
    (e : Env) (email password : Text) (db : Store) (u : User)
    → IsOpen e email db u
    → verify_password e.stdlib password u.password_hash ≡ false
    → login_user e email password db ≡ (err authentication_failed, register_failed_login e u db)
unfolding login_user
wrong_password e email password db u (found, active, unlocked) wrong =
    rw (found, login_user) (rw (active, unlocked, wrong))

-- A login with a password, and what the clock shows then.
pub record Try : Type 0 where
  pub at : ℕ
  pub password : Text

abbrev pub clock : Env → ℕ → Env
clock e t = record e { now = t }

-- The store after a sequence of logins of one address.
abbrev pub logins : Env → Text → List Try → Store → Store
logins e email [] db = db
logins e email (t ∷ ts) db = logins e email ts (login_user (clock e t.at) email t.password db).1

abbrev pub all_wrong : Env → User → List Try → Bool
all_wrong e u [] = true
all_wrong e u (t ∷ ts) =
    not (verify_password e.stdlib t.password u.password_hash) && all_wrong e u ts

-- The clock does not go back.
abbrev pub is_rising : ℕ → List Try → Bool
is_rising now [] = true
is_rising now (t ∷ ts) = leb now t.at && is_rising t.at ts

abbrev pub last_time : ℕ → List Try → ℕ
last_time now [] = now
last_time now (t ∷ ts) = last_time t.at ts

Locked : Env → Text → ℕ → Store → Type 0
Locked e email until db =
    (q : User) × (find? (has_email (e.characters.lower (strip email))) db.users ≡ some q)
    × (q.is_active ≡ true)
    × (q.locked_until ≡ some until)

all_wrong_same :
    (e : Env) (u : User) (ts : List Try)
    → all_wrong e u ts ≡ true
    → all_wrong e (count_failure u) ts ≡ true
all_wrong_same e u [] h = refl
all_wrong_same e u (t ∷ ts) h = ground (arith, all_wrong_same e u ts)

still_open :
    (a b : ℕ) (until : Option ℕ)
    → leb a b ≡ true
    → is_locked a until ≡ false
    → is_locked b until ≡ false
still_open a b none h k = refl
still_open a b (some t) h k = ground arith

wrong_passwords-Locked :
    (e : Env) (email : Text) (t : Try) (ts : List Try) (db : Store) (u : User)
    → IsOpen (clock e t.at) email db u
    → all_wrong e u (t ∷ ts) ≡ true
    → is_rising t.at ts ≡ true
    → u.failed_login_attempts + length (t ∷ ts) ≡ e.auth_lockout_threshold
    → Locked e email (last_time t.at ts + e.auth_lockout_seconds) (logins e email (t ∷ ts) db)
unfolding Locked
wrong_passwords-Locked e email t [] db u (found, active, unlocked) wrong rising n =
    let m = e.characters.lower (strip email) in
    let at_limit : leb e.auth_lockout_threshold (suc u.failed_login_attempts) ≡ true =
      ground arith in
    let until = t.at + e.auth_lockout_seconds in
    let there = find-set_user m u (lock_until until) db (λ x. refl) found in
    let one =
      wrong_password (clock e t.at) email t.password db u (found, active, unlocked)
        (ground arith) in
    subst (λ r. Locked e email until r.1) (sym one)
      (unfold register_failed_login in rw at_limit (lock_until until u, there, active, refl))
wrong_passwords-Locked e email t (t' ∷ ts) db u (found, active, unlocked) wrong rising n =
    let m = e.characters.lower (strip email) in
    let under : leb e.auth_lockout_threshold (suc u.failed_login_attempts) ≡ false = ground arith in
    let there = find-set_user m u count_failure db (λ x. refl) found in
    let next : register_failed_login (clock e t.at) u db ≡ set_user count_failure u.id db =
      unfold register_failed_login in rw under in
    let one =
      wrong_password (clock e t.at) email t.password db u (found, active, unlocked)
        (ground arith) in
    let later_open = still_open t.at t'.at u.locked_until (ground arith) unlocked in
    let until = last_time t'.at ts + e.auth_lockout_seconds in
    subst (λ r. Locked e email until (logins e email (t' ∷ ts) r.1)) (sym one)
      (rw next (
        wrong_passwords-Locked e email t' ts (set_user count_failure u.id db) (count_failure u)
          (there, active, later_open) (all_wrong_same e u (t' ∷ ts) (ground arith)) (ground arith)
          (omega arith)))

login_locked :
    (e : Env) (email password : Text) (db : Store) (q : User) (t : ℕ)
    → find? (has_email (e.characters.lower (strip email))) db.users ≡ some q
    → q.is_active ≡ true
    → q.locked_until ≡ some t
    → e.now < t
    → login_user e email password db ≡ (err (user_locked t), db)
unfolding login_user
login_locked e email password db q t found active locked early =
    let before : ltb e.now t ≡ true = ground arith in
    rw (found, login_user) (rw (active, locked) (rw before))

-- Enough wrong passwords in a row for an open user to reach the threshold, each at its own time by a
-- clock that does not go back, lock the account: until the lockout time has passed after the last of
-- them, every later login, with the right password too, is refused as locked and changes nothing.
pub brute_force_locks :
    (e later : Env) (email password : Text) (t : Try) (ts : List Try) (db : Store) (u : User)
    → IsOpen (clock e t.at) email db u
    → all_wrong e u (t ∷ ts) ≡ true
    → is_rising t.at ts ≡ true
    → u.failed_login_attempts + length (t ∷ ts) ≡ e.auth_lockout_threshold
    → later.now < last_time t.at ts + e.auth_lockout_seconds
    → later.characters.lower ≡ e.characters.lower
    → let after = logins e email (t ∷ ts) db in
      login_user later email password after
      ≡ (err (user_locked (last_time t.at ts + e.auth_lockout_seconds)), after)
unfolding Locked
brute_force_locks e later email password t ts db u opened wrong rising n early same =
    let (q, found, active, locked) =
      wrong_passwords-Locked e email t ts db u opened wrong rising n in
    let there : find? (has_email (later.characters.lower (strip email)))
          (logins e email (t ∷ ts) db).users
        ≡ some q =
      rw same found in
    login_locked later email password (logins e email (t ∷ ts) db) q
      (last_time t.at ts + e.auth_lockout_seconds) there active locked early
