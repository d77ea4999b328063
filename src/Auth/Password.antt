-- ===== src/Auth/Password.antt =====
-- The password rules and the password hashes of backend/src/kuuna_backend/domain/auth/service.py. The
-- character tests and the case mappings of Python's `str`, its `int`, and `hashlib.scrypt` are
-- parameters.
use kuuna_support_agents.Common.{
  ℕ, zero, suc, ◌+◌, ◌-◌, ◌≤◌, ◌≡◌, refl, Bool, true, false, ◌&&◌, ◌||◌, not, List, [], ◌∷◌, ◌++◌,
  Text, text_eq, length, any, arith, ltb, ◌==◌, inl, inr, ◌∙◌, ap, sym, ◌↔◌, ◌≢◌, text_eq_iff,
  Bool-cases,
}

pub record PasswordSettings : Type 0 where
  pub auth_password_min_length : ℕ
  pub auth_password_max_consecutive : ℕ

pub record Characters : Type 0 where
  pub lower : Text → Text
  pub upper : Text → Text
  pub is_digit : ℕ → Bool
  pub is_alnum : ℕ → Bool

pub data Violation : Type 0 where
  minimum_length uppercase lowercase digit symbol consecutive : Violation

-- The loop over the positions: `run` counts the equal characters that end at the previous one.
exceeds_run : (max_consec run prev : ℕ) → Text → Bool
exceeds_run m run prev [] = false
exceeds_run m run prev (c ∷ rest) = elim (c == prev) [
  | true ↦ elim (ltb m (suc run)) [ true ↦ true | false ↦ exceeds_run m (suc run) c rest ]
  | false ↦ exceeds_run m 1 c rest
]

abbrev has_long_run : ℕ → Text → Bool
has_long_run m [] = false
has_long_run m (c ∷ rest) = exceeds_run m 1 c rest

abbrev violation_if : Bool → Violation → List Violation
violation_if true v = v ∷ []
violation_if false v = []

-- `password_policy_violations`
pub password_policy_violations : PasswordSettings → Characters → Text → List Violation
unfolding exceeds_run
password_policy_violations s u password =
    violation_if (ltb (length password) s.auth_password_min_length) Violation.minimum_length
    ++ violation_if (text_eq (u.lower password) password) Violation.uppercase
    ++ violation_if (text_eq (u.upper password) password) Violation.lowercase
    ++ violation_if (not (any u.is_digit password)) Violation.digit
    ++ violation_if (not (any (λ c. not (u.is_alnum c)) password)) Violation.symbol
    ++ violation_if (has_long_run s.auth_password_max_consecutive password) Violation.consecutive

-- The text starts with `n` times the character.
abbrev pub repeat : ℕ → ℕ → Text
repeat zero c = []
repeat (suc n) c = c ∷ repeat n c

begins : ℕ → ℕ → Text → Bool
begins zero c s = true
begins (suc n) c [] = false
begins (suc n) c (d ∷ s) = d == c && begins n c s

-- Somewhere `n` equal characters follow each other.
has_run : ℕ → Text → Bool
unfolding begins
has_run n [] = false
has_run n (c ∷ s) = begins n c (c ∷ s) || has_run n s

begins_mono : (n k c : ℕ) (s : Text) → k ≤ n → begins n c s ≡ true → begins k c s ≡ true
unfolding begins
begins_mono n zero c s h e = refl
begins_mono zero (suc k) c s h e = absurd (omega arith)
begins_mono (suc n) (suc k) c [] h e = absurd (ground arith)
begins_mono (suc n) (suc k) c (d ∷ s) h e = ground (arith, begins_mono n k c s)

absorb : (a b h : Bool) → (b ≡ true → a ≡ true) → (a || h) ≡ (a || (b || h))
absorb true b h f = refl
absorb false true h f = absurd (ground (arith, f refl))
absorb false false h f = refl

suc_pred : (m : ℕ) → 1 ≤ m → suc (m - 1) ≡ m
suc_pred m h = omega arith

eq_refl : (c : ℕ) → (c == c) ≡ true
eq_refl c = ground arith

-- The loop in a run that may grow by `j` more characters.
exceeds_run_lem :
    (m run j prev : ℕ) (s : Text)
    → 1 ≤ run
    → m ≡ run + j
    → exceeds_run m run prev s ≡ (begins (suc j) prev s || has_run (suc m) s)
unfolding exceeds_run begins has_run
exceeds_run_lem m run j prev [] h k = refl
exceeds_run_lem m run zero prev (c ∷ s) h k = elim (Bool-cases (c == prev)) [
  | inl e ↦ let over : ltb m (suc run) ≡ true = ground arith in rw (e, exceeds_run) (rw over)
  | inr e ↦
      rw (e, exceeds_run, begins, eq_refl)
        (exceeds_run_lem m 1 (m - 1) c s (omega arith) (omega arith)
          ∙ ap (λ n. begins n c s || has_run (suc m) s) (suc_pred m (omega arith)))
]
exceeds_run_lem m run (suc j) prev (c ∷ s) h k = elim (Bool-cases (c == prev)) [
  | inl e ↦
      let under : ltb m (suc run) ≡ false = ground arith in
      let same : c ≡ prev = ground arith in
      rw (e, exceeds_run)
        (rw (under, eq_refl)
          (exceeds_run_lem m (suc run) j c s (omega arith) (omega arith)
            ∙ rw same (
                absorb (begins (suc j) prev s) (begins m prev s) (has_run (suc m) s)
                  (begins_mono m (suc j) prev s (omega arith)))))
  | inr e ↦
      rw (e, exceeds_run, begins, eq_refl)
        (exceeds_run_lem m 1 (m - 1) c s (omega arith) (omega arith)
          ∙ ap (λ n. begins n c s || has_run (suc m) s) (suc_pred m (omega arith)))
]

-- With at least one repetition allowed, the loop finds exactly the passwords with too long a run.
has_long_run_lem : (m : ℕ) (s : Text) → 1 ≤ m → has_long_run m s ≡ has_run (suc m) s
unfolding has_run begins
has_long_run_lem m [] h = refl
has_long_run_lem m (c ∷ s) h = rw (eq_refl c) (
    exceeds_run_lem m 1 (m - 1) c s (omega arith) (omega arith)
    ∙ ap (λ n. begins n c s || has_run (suc m) s) (suc_pred m (omega arith)))

begins-repeat : (n c : ℕ) (s : Text) → begins n c s ≡ true → (b : Text) × (s ≡ repeat n c ++ b)
unfolding begins
begins-repeat zero c s h = (s, refl)
begins-repeat (suc n) c [] h = absurd (ground arith)
begins-repeat (suc n) c (d ∷ s) h =
    let same : d ≡ c = ground arith in
    let (b, e) = begins-repeat n c s (ground arith) in (b, rw same (ap (λ t. c ∷ t) e))

repeat-begins : (n c : ℕ) (b : Text) → begins n c (repeat n c ++ b) ≡ true
unfolding begins
repeat-begins zero c b = refl
repeat-begins (suc n) c b = rw (eq_refl c) (repeat-begins n c b)

-- The text has `n` equal characters in a row, after the text `a`.
abbrev pub HasRun : ℕ → Text → Type 0
HasRun n s = (a b : Text) × (c : ℕ) × (s ≡ a ++ repeat n c ++ b)

has_run-HasRun : (n : ℕ) (s : Text) → has_run n s ≡ true → HasRun n s
unfolding has_run
has_run-HasRun n [] h = absurd (ground arith)
has_run-HasRun n (c ∷ s) h = elim (Bool-cases (begins n c (c ∷ s))) [
  | inl e ↦ let (b, same) = begins-repeat n c (c ∷ s) e in ([], b, c, same)
  | inr e ↦
      let (a, b, d, same) = has_run-HasRun n s (ground arith) in (c ∷ a, b, d, ap (λ t. c ∷ t) same)
]

HasRun-has_run : (n : ℕ) (a b : Text) (c : ℕ) → has_run (suc n) (a ++ repeat (suc n) c ++ b) ≡ true
unfolding has_run
HasRun-has_run n [] b c = rw (repeat-begins (suc n) c b)
HasRun-has_run n (d ∷ a) b c = ground (arith, HasRun-has_run n a b c)

abbrev report : Bool → Bool → Bool → Bool → Bool → Bool → List Violation
report short up low dig sym run =
    violation_if short Violation.minimum_length
    ++ violation_if up Violation.uppercase
    ++ violation_if low Violation.lowercase
    ++ violation_if dig Violation.digit
    ++ violation_if sym Violation.symbol
    ++ violation_if run Violation.consecutive

report-eq_nil :
    (a b c d e f : Bool)
    → (report a b c d e f ≡ [])
      ↔ ((a ≡ false) × (b ≡ false) × (c ≡ false) × (d ≡ false) × (e ≡ false) × (f ≡ false))
report-eq_nil true b c d e f = ground arith
report-eq_nil false true c d e f = ground arith
report-eq_nil false false true d e f = ground arith
report-eq_nil false false false true e f = ground arith
report-eq_nil false false false false true f = ground arith
report-eq_nil false false false false false true = ground arith
report-eq_nil false false false false false false = ground arith

-- What the policy asks of a password.
pub record IsAccepted (s : PasswordSettings) (u : Characters) (password : Text) : Type 0 where
  long_enough : s.auth_password_min_length ≤ length password
  has_uppercase : u.lower password ≢ password
  has_lowercase : u.upper password ≢ password
  has_digit : any u.is_digit password ≡ true
  has_symbol : any (λ c. not (u.is_alnum c)) password ≡ true
  no_long_run : ¬ HasRun (suc s.auth_password_max_consecutive) password

abbrev Passes : PasswordSettings → Characters → Text → Type 0
Passes s u password =
    (ltb (length password) s.auth_password_min_length ≡ false)
    × (text_eq (u.lower password) password ≡ false)
    × (text_eq (u.upper password) password ≡ false)
    × (not (any u.is_digit password) ≡ false)
    × (not (any (λ c. not (u.is_alnum c)) password) ≡ false)
    × (has_long_run s.auth_password_max_consecutive password ≡ false)

no_run : (m : ℕ) (s : Text) → 1 ≤ m → has_long_run m s ≡ false → ¬ HasRun (suc m) s
no_run m s h e (a, b, c, same) =
    let found : has_run (suc m) s ≡ true = rw same (HasRun-has_run m a b c) in
    ground (arith, has_long_run_lem m s h)

run_none : (m : ℕ) (s : Text) → 1 ≤ m → ¬ HasRun (suc m) s → has_long_run m s ≡ false
run_none m s h never = elim (Bool-cases (has_long_run m s)) [
  | inl e ↦ absurd (never (has_run-HasRun (suc m) s (sym (has_long_run_lem m s h) ∙ e)))
  | inr e ↦ e
]

differs : (s t : Text) → text_eq s t ≡ false → s ≢ t
differs s t e same = ground (arith, text_eq_iff s t)

accepted :
    (s : PasswordSettings) (u : Characters) (password : Text)
    → 1 ≤ s.auth_password_max_consecutive
    → Passes s u password
    → IsAccepted s u password
accepted s u password h (e1, e2, e3, e4, e5, e6) = record {
  long_enough = ground arith;
  has_uppercase = differs (u.lower password) password e2;
  has_lowercase = differs (u.upper password) password e3;
  has_digit = ground arith;
  has_symbol = ground arith;
  no_long_run = no_run s.auth_password_max_consecutive password h e6;
}

text_ne : (s t : Text) → s ≢ t → text_eq s t ≡ false
text_ne s t ne = ground (arith, text_eq_iff s t)

rejects_none :
    (s : PasswordSettings) (u : Characters) (password : Text)
    → 1 ≤ s.auth_password_max_consecutive
    → IsAccepted s u password
    → Passes s u password
rejects_none s u password h a = (
  ground (arith, a.long_enough),
  text_ne (u.lower password) password a.has_uppercase,
  text_ne (u.upper password) password a.has_lowercase,
  ground (arith, a.has_digit),
  ground (arith, a.has_symbol),
  run_none s.auth_password_max_consecutive password h a.no_long_run,
)

-- Where at least one repetition of a character is allowed, the policy finds no violation in exactly
-- the passwords that are long enough, that change under `lower` and under `upper`, that have a digit
-- and a character that is not alphanumeric, and in which no character stands more often in a row
-- than allowed.
pub policy_accepts :
    (s : PasswordSettings) (u : Characters) (password : Text)
    → 1 ≤ s.auth_password_max_consecutive
    → (password_policy_violations s u password ≡ []) ↔ IsAccepted s u password
unfolding password_policy_violations
policy_accepts s u password h =
    let m = s.auth_password_max_consecutive in
    let iff =
      report-eq_nil (ltb (length password) s.auth_password_min_length)
        (text_eq (u.lower password) password) (text_eq (u.upper password) password)
        (not (any u.is_digit password)) (not (any (λ c. not (u.is_alnum c)) password))
        (has_long_run m password) in
    (λ e. accepted s u password h (iff.0 e), λ a. iff.1 (rejects_none s u password h a))
