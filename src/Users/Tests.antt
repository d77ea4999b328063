-- ===== src/Users/Tests.antt =====
-- Examples for the calls of backend/src/kuuna_backend/domain/users/service.py.
use kuuna_support_agents.Common.{refl, arith, true, false, none, some, List, [], ◌∷◌, codes}
use kuuna_support_agents.Auth.Hashes.{Stdlib}
use kuuna_support_agents.Auth.Password.{Characters, PasswordSettings}
use kuuna_support_agents.Auth.Login.{RoleName}
use kuuna_support_agents.Users.{Store, Env, NewUser}
use kuuna_support_agents.Users.Invariant.{
  IsValid, Call, create, update, set_roles, set_scope, history, users_history-IsValid,
}

-- Every password has the same key, and no number is read.
abbrev constant : Stdlib
constant = record { scrypt = λ p s n r q k. some (7 ∷ []); int = λ t. none }

abbrev ascii : Characters
ascii = record {
  lower = λ t. t;
  upper = λ t. codes "A";
  is_digit = λ c. true;
  is_alnum = λ c. false;
}

abbrev lenient : PasswordSettings
lenient = record { auth_password_min_length = 1; auth_password_max_consecutive = 9 }

abbrev env : Env
env = record {
  now = 100;
  lower = λ t. t;
  show = λ n. codes "1";
  stdlib = constant;
  salt = 7 ∷ [];
  characters = ascii;
  password_settings = lenient;
}

abbrev ann : NewUser
ann = record {
  email = codes "ann@x.de";
  password = codes "ab";
  roles = RoleName.owner ∷ RoleName.admin ∷ RoleName.owner ∷ [];
  group_scope = codes "g" ∷ codes "f" ∷ codes "g" ∷ [];
  must_change_password = false;
  is_active = true;
}

abbrev empty : Store
empty = record { users = []; user_roles = []; group_assignments = []; audit = [] }

empty-IsValid : IsValid empty
empty-IsValid = record {
  ids = λ i. omega arith;
  emails = λ m. omega arith;
  have_roles = λ i. refl;
  roles = λ i r. omega arith;
  groups = λ i g. omega arith;
}

abbrev calls : List Call
calls =
    create env 1 1 ann
    ∷ create env 1 2 ann
    ∷ update env 1 1 (some false) none
    ∷ set_roles env 1 1 []
    ∷ set_scope env 1 1 (codes "h" ∷ codes "h" ∷ [])
    ∷ []

users_history-IsValid_example : IsValid (history calls empty)
users_history-IsValid_example = users_history-IsValid calls empty empty-IsValid
