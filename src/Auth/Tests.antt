-- ===== src/Auth/Tests.antt =====
-- Sign-in at concrete users, passwords and times.
use kuuna_support_agents.Common.{
  String, ℕ, suc, zero, ◌+◌, ◌-◌, ◌≡◌, refl, ap, true, false, none, some, List, [], ◌∷◌, ◌++◌, Text,
  codes, ◌↔◌, arith, ok, err, min, lt→ltb, length, Option, leb, ltb, ◌&&◌, ◌||◌, map, text_eq,
  strip,
}
use kuuna_support_agents.Auth.RateLimiter.{
  Attempt, answers, new_rate_limiter, spec_answers, limiter_refines_log,
}
use kuuna_support_agents.Auth.Password.{
  PasswordSettings, Characters, IsAccepted, password_policy_violations, policy_accepts,
}
use kuuna_support_agents.Auth.Hashes.{
  Stdlib, IsStdlib, hash_password, verify_password, verify-hash_iff, are_bytes,
}
use kuuna_support_agents.Auth.Login.{Env, Store, User, AuthLoginResult, login_user, user_locked}
use kuuna_support_agents.Auth.Login.Lockout.{
  Try, IsOpen, logins, all_wrong, login_accepts, brute_force_locks,
}

abbrev attempt : ℕ → Attempt
attempt t = record { key = codes "10.0.0.1"; at = t }

abbrev attempts : List Attempt
attempts = attempt 1 ∷ attempt 2 ∷ attempt 3 ∷ attempt 70 ∷ []

limiter_refines_log_example :
    answers (new_rate_limiter 2 60) attempts ≡ spec_answers 2 60 [] attempts
limiter_refines_log_example = limiter_refines_log 2 60 attempts refl

abbrev settings : PasswordSettings
settings = record { auth_password_min_length = 4; auth_password_max_consecutive = 3 }

abbrev upper_code : ℕ → ℕ
upper_code c = elim (leb 97 c && leb c 122) [ true ↦ c - 32 | false ↦ c ]

abbrev lower_code : ℕ → ℕ
lower_code c = elim (leb 65 c && leb c 90) [ true ↦ c + 32 | false ↦ c ]

abbrev ascii : Characters
ascii = record {
  lower = map lower_code;
  upper = map upper_code;
  is_digit = λ c. leb 48 c && leb c 57;
  is_alnum = λ c. leb 48 c && leb c 57 || leb 65 c && leb c 90 || leb 97 c && leb c 122;
}

policy_accepts_example :
    (password_policy_violations settings ascii (codes "aaaA1!") ≡ [])
    ↔ IsAccepted settings ascii (codes "aaaA1!")
policy_accepts_example = policy_accepts settings ascii (codes "aaaA1!") (omega arith)

-- A key of the wanted length that depends on the first character of the password.
abbrev fill : ℕ → ℕ → List ℕ
fill zero b = []
fill (suc n) b = b ∷ fill n b

abbrev first : Text → ℕ
first [] = 0
first (c ∷ s) = min c 255

abbrev int_of : Text → Option ℕ
int_of t = elim (text_eq t (codes "16384")) [
  | true ↦ some 16384
  | false ↦ elim (text_eq t (codes "8")) [ true ↦ some 8 | false ↦ some 1 ]
]

abbrev stdlib : Stdlib
stdlib = record { scrypt = λ p s n r q k. some (fill k (first p)); int = int_of }

length-fill : (n b : ℕ) → length (fill n b) ≡ n
length-fill zero b = refl
length-fill (suc n) b = ap suc (length-fill n b)

fill_small : (n b : ℕ) → ltb b 256 ≡ true → are_bytes (fill n b) ≡ true
fill_small zero b h = refl
fill_small (suc n) b h = ground (arith, fill_small n b h)

first_small : (p : Text) → ltb (first p) 256 ≡ true
first_small [] = refl
first_small (c ∷ s) = lt→ltb (min c 255) 256 (omega arith)

stdlib-IsStdlib : IsStdlib stdlib
unfolding text_eq
stdlib-IsStdlib = record {
  cost = refl;
  block = refl;
  parallel = refl;
  derives = λ password salt n r p k d h.
      let e : d ≡ fill k (first password) = ground arith in
      rw e (length-fill k (first password), fill_small k (first password) (first_small password));
}

abbrev pairs : ℕ → Text
pairs zero = []
pairs (suc n) = 54 ∷ 49 ∷ pairs n

abbrev hash_of_a : Text
hash_of_a = codes "scrypt$16384$8$1$07ff$" ++ pairs 64

hash_lem : hash_password stdlib (7 ∷ 255 ∷ []) (codes "a") ≡ some hash_of_a
unfolding hash_password
hash_lem = refl

verify-hash_iff_example :
    (verify_password stdlib (codes "b") hash_of_a ≡ true)
    ↔ (stdlib.scrypt (codes "b") (7 ∷ 255 ∷ []) 16384 8 1 64 ≡ some (fill 64 97))
verify-hash_iff_example =
    verify-hash_iff stdlib (7 ∷ 255 ∷ []) (codes "a") (codes "b") (fill 64 97) hash_of_a
      stdlib-IsStdlib refl refl hash_lem

abbrev env : ℕ → Env
env t = record {
  now = t;
  auth_lockout_threshold = 2;
  auth_lockout_seconds = 900;
  auth_token_ttl_seconds = 3600;
  stdlib = stdlib;
  characters = ascii;
  password_settings = settings;
  salt = 7 ∷ 255 ∷ [];
  issue_access_token = λ i r g. codes "token";
}

abbrev ann : User
ann = record {
  id = 1;
  email = codes "ann@x.de";
  password_hash = hash_of_a;
  is_active = true;
  must_change_password = false;
  failed_login_attempts = 0;
  locked_until = none;
  password_changed_at = none;
}

abbrev db : Store
db = record { users = ann ∷ []; audit_events = []; role_names = λ i. []; assigned_groups = λ i. [] }

ann-IsOpen : IsOpen (env 100) (codes "Ann@x.de") db ann
unfolding strip text_eq
ann-IsOpen = (refl, refl, refl)

abbrev try_at : ℕ → String → Try
try_at t password = record { at = t; password = codes password }

wrong_lem : all_wrong (env 100) ann (try_at 100 "b" ∷ try_at 140 "c" ∷ []) ≡ true
unfolding verify_password text_eq
wrong_lem = refl

login_accepts_example :
    ((r : AuthLoginResult) × ((login_user (env 100) (codes "Ann@x.de") (codes "a") db).0 ≡ ok r))
    ↔ ((u : User) × IsOpen (env 100) (codes "Ann@x.de") db u
        × (verify_password stdlib (codes "a") u.password_hash ≡ true))
login_accepts_example = login_accepts (env 100) (codes "Ann@x.de") (codes "a") db

brute_force_locks_example :
    let after = logins (env 100) (codes "Ann@x.de") (try_at 100 "b" ∷ try_at 140 "c" ∷ []) db in
    login_user (env 1039) (codes "Ann@x.de") (codes "a") after ≡ (err (user_locked 1040), after)
brute_force_locks_example =
    brute_force_locks (env 100) (env 1039) (codes "Ann@x.de") (codes "a") (try_at 100 "b")
      (try_at 140 "c" ∷ []) db ann ann-IsOpen wrong_lem refl refl (omega arith) refl
