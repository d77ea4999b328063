-- ===== src/Auth/RateLimiter.antt =====
-- The limiter of login attempts per address: `_IpRateLimiter` of
-- backend/src/kuuna_backend/domain/auth/service.py. A time is a number of clock ticks, and so is the
-- window. `now - window` may be negative in the code, so its test is written as a sum.
use kuuna_support_agents.Common.{
  ℕ, ◌+◌, ◌≤◌, ◌≡◌, refl, Bool, true, false, ◌&&◌, List, [], ◌∷◌, ◌++◌, Text, text_eq, length,
  count, count-append, all, arith, if◌then◌else◌, ltb, leb, sym, ap, ◌∙◌, Bool-cases, length-append,
  inl, inr, text_eq_iff,
}

-- `_buckets` is a `defaultdict`: a key that is not there has an empty deque.
pub record IpRateLimiter : Type 0 where
  pub max_attempts : ℕ
  pub window : ℕ
  pub buckets : Text → List ℕ

-- `while bucket and bucket[0] < cutoff: bucket.popleft()`
prune : (window now : ℕ) → List ℕ → List ℕ
prune window now [] = []
prune window now (t ∷ bucket) =
    let rest = prune window now bucket in if ltb (t + window) now then rest else t ∷ bucket

abbrev set_bucket : Text → List ℕ → IpRateLimiter → IpRateLimiter
set_bucket key bucket r = record r { buckets = λ k. if text_eq k key then bucket else r.buckets k }

-- `is_allowed` at the time `now`.
pub is_allowed : (now : ℕ) (key : Text) → IpRateLimiter → Bool × IpRateLimiter
unfolding prune
is_allowed now key r =
    let bucket = prune r.window now (r.buckets key) in
    if leb r.max_attempts (length bucket)
    then (false, set_bucket key bucket r)
    else (true, set_bucket key (bucket ++ now ∷ []) r)

abbrev pub new_rate_limiter : ℕ → ℕ → IpRateLimiter
new_rate_limiter max_attempts window = record {
  max_attempts = max_attempts;
  window = window;
  buckets = λ key. [];
}

pub record Attempt : Type 0 where
  pub key : Text
  pub at : ℕ

-- The answers to a sequence of attempts.
pub answers : IpRateLimiter → List Attempt → List Bool
unfolding is_allowed
answers r [] = []
answers r (a ∷ rest) = let (b, r') = is_allowed a.at a.key r in b ∷ answers r' rest

-- The specification: a log of every attempt that was allowed, none of them forgotten. An attempt is
-- allowed when the log has fewer than the maximum of the same key within the window before it.
abbrev is_recent : ℕ → Text → ℕ → Attempt → Bool
is_recent window key now a = text_eq key a.key && leb now (a.at + window)

pub spec_answers : (max_attempts window : ℕ) → List Attempt → List Attempt → List Bool
spec_answers m w log [] = []
spec_answers m w log (a ∷ rest) = elim (ltb (count (is_recent w a.key a.at) log) m) [
  | true ↦ true ∷ spec_answers m w (log ++ a ∷ []) rest
  | false ↦ false ∷ spec_answers m w log rest
]

-- The clock does not go back.
abbrev pub are_ordered : ℕ → List Attempt → Bool
are_ordered last [] = true
are_ordered last (a ∷ rest) = leb last a.at && are_ordered a.at rest

prune_twice : (w t now : ℕ) → t ≤ now → (b : List ℕ) → prune w now (prune w t b) ≡ prune w now b
unfolding prune
prune_twice w t now h [] = refl
prune_twice w t now h (x ∷ b) = ground (arith, prune_twice w t now h b)

length-prune_snoc :
    (w t now : ℕ) (b : List ℕ)
    → all (λ x. leb x t) b ≡ true
    → length (prune w now (b ++ t ∷ []))
      ≡ length (prune w now b) + (if leb now (t + w) then 1 else 0)
unfolding prune
length-prune_snoc w t now [] h = ground arith
length-prune_snoc w t now (x ∷ b) h =
    ground (arith, length-prune_snoc w t now b, length-append {0} b (t ∷ []))

all_mono :
    (t now : ℕ)
    → t ≤ now
    → (b : List ℕ) → all (λ x. leb x t) b ≡ true
    → all (λ x. leb x now) b ≡ true
all_mono t now h [] e = refl
all_mono t now h (x ∷ b) e = ground (arith, all_mono t now h b)

all-prune :
    (w t now : ℕ) (b : List ℕ)
    → all (λ x. leb x t) b ≡ true
    → all (λ x. leb x t) (prune w now b) ≡ true
unfolding prune
all-prune w t now [] e = refl
all-prune w t now (x ∷ b) e = ground (arith, all-prune w t now b)

all_snoc :
    (t : ℕ) (b : List ℕ) → all (λ x. leb x t) b ≡ true → all (λ x. leb x t) (b ++ t ∷ []) ≡ true
all_snoc t [] e = ground arith
all_snoc t (x ∷ b) e = ground (arith, all_snoc t b)

-- The buckets stand for the log, from the time `last` on: what a bucket has left at any later time
-- is as much as the log has of its key within the window.
record Represents (last : ℕ) (r : IpRateLimiter) (log : List Attempt) : Type 0 where
  past : (k : Text) → all (λ x. leb x last) (r.buckets k) ≡ true
  live :
      (k : Text) (now : ℕ)
      → last ≤ now
      → length (prune r.window now (r.buckets k)) ≡ count (is_recent r.window k now) log

refused-Represents :
    (last t : ℕ) (key : Text) (r : IpRateLimiter) (log : List Attempt)
    → last ≤ t
    → Represents last r log
    → Represents t (set_bucket key (prune r.window t (r.buckets key)) r) log
refused-Represents last t key r log h i = record {
  past = λ k. elim (Bool-cases (text_eq k key)) [
    | inl e ↦
        rw e
          (all-prune r.window t t (r.buckets key) (all_mono last t h (r.buckets key) (i.past key)))
    | inr e ↦ rw e (all_mono last t h (r.buckets k) (i.past k))
  ];
  live = λ k now le. elim (Bool-cases (text_eq k key)) [
    | inl e ↦
        let same : k ≡ key = (text_eq_iff k key).0 e in
        rw e (
          ap (length {0}) (prune_twice r.window t now le (r.buckets key))
          ∙ i.live key now (omega arith)
          ∙ ap (λ x. count (is_recent r.window x now) log) (sym same))
    | inr e ↦ rw e (i.live k now (omega arith))
  ];
}

allowed-Represents :
    (last t : ℕ) (key : Text) (r : IpRateLimiter) (log : List Attempt)
    → last ≤ t
    → Represents last r log
    → Represents t
        (set_bucket key (prune r.window t (r.buckets key) ++ t ∷ []) r)
        (log ++ (record { key = key; at = t }) ∷ [])
allowed-Represents last t key r log h i = record {
  past = λ k. elim (Bool-cases (text_eq k key)) [
    | inl e ↦ rw e (
        all_snoc t (prune r.window t (r.buckets key))
          (all-prune r.window t t (r.buckets key) (all_mono last t h (r.buckets key) (i.past key))))
    | inr e ↦ rw e (all_mono last t h (r.buckets k) (i.past k))
  ];
  live = λ k now le. elim (Bool-cases (text_eq k key)) [
    | inl e ↦
        let same : k ≡ key = (text_eq_iff k key).0 e in
        let past =
          all-prune r.window t t (r.buckets key) (all_mono last t h (r.buckets key) (i.past key)) in
        rw e (
          length-prune_snoc r.window t now (prune r.window t (r.buckets key)) past
          ∙ ground (
            arith,
            ap (length {0}) (prune_twice r.window t now le (r.buckets key)),
            i.live key now,
            (count-append (is_recent r.window k now) log (record { key = key; at = t } ∷ [])),
            ap (λ x. count (is_recent r.window x now) log) same,
          ))
    | inr e ↦ rw e (
        i.live k now (omega arith)
        ∙ ground (
          arith,
          (count-append (is_recent r.window k now) log (record { key = key; at = t } ∷ [])),
        ))
  ];
}

-- The limiter answers as the log of all allowed attempts says, though it keeps only the recent ones
-- and forgets them when it looks.
refines :
    (r : IpRateLimiter) (log : List Attempt) (last : ℕ) (attempts : List Attempt)
    → Represents last r log
    → are_ordered last attempts ≡ true
    → answers r attempts ≡ spec_answers r.max_attempts r.window log attempts
unfolding answers spec_answers is_allowed
refines r log last [] i o = refl
refines r log last (a ∷ rest) i o =
    let ordered : last ≤ a.at = ground arith in
    let later : are_ordered a.at rest ≡ true = ground arith in
    let kept : length (prune r.window a.at (r.buckets a.key))
        ≡ count (is_recent r.window a.key a.at) log =
      i.live a.key a.at ordered in
    elim (Bool-cases (ltb (count (is_recent r.window a.key a.at) log) r.max_attempts)) [
      | inl e ↦
          let room : leb r.max_attempts (length (prune r.window a.at (r.buckets a.key))) ≡ false =
            ground arith in
          let more =
            refines (set_bucket a.key (prune r.window a.at (r.buckets a.key) ++ a.at ∷ []) r)
              (log ++ a ∷ []) a.at rest (allowed-Represents last a.at a.key r log ordered i)
              later in
          rw (e, spec_answers) (rw (room, answers) (ap (λ x. true ∷ x) more))
      | inr e ↦
          let full : leb r.max_attempts (length (prune r.window a.at (r.buckets a.key))) ≡ true =
            ground arith in
          let more =
            refines (set_bucket a.key (prune r.window a.at (r.buckets a.key)) r) log a.at rest
              (refused-Represents last a.at a.key r log ordered i) later in
          rw (e, spec_answers) (rw (full, answers) (ap (λ x. false ∷ x) more))
    ]

new-Represents : {m w : ℕ} → Represents 0 (new_rate_limiter m w) []
unfolding prune
new-Represents = record { past = λ k. refl; live = λ k now h. refl }

-- A new limiter answers an attempt by the number of attempts of the same key that it allowed in the
-- window up to then, and by nothing else, as long as the clock does not go back; that it keeps only
-- recent times, and prunes them when it looks, shows in no answer.
pub limiter_refines_log :
    (max_attempts window : ℕ) (attempts : List Attempt)
    → are_ordered 0 attempts ≡ true
    → answers (new_rate_limiter max_attempts window) attempts
      ≡ spec_answers max_attempts window [] attempts
limiter_refines_log m w attempts o = refines (new_rate_limiter m w) [] 0 attempts new-Represents o
