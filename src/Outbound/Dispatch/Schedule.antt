-- ===== src/Outbound/Dispatch/Schedule.antt =====
-- The job under the queue's retries: `OUTBOUND_DISPATCH_RETRY_INTERVALS` and `enqueue_outbound_dispatch`
-- of backend/src/kuuna_backend/jobs/queue.py. The queue (RQ) runs a job again after an exception as
-- long as it has a retry left, and tells the job whether it has.
use kuuna_support_agents.Common.{
  ℕ, zero, suc, ◌+◌, ◌≤◌, ◌≡◌, refl, ap, Bool, true, false, ◌⊎◌, inl, inr, Option, none, some, List,
  [], ◌∷◌, Text, arith, length, length-append, Bool-cases,
}
use kuuna_support_agents.Outbound.{OutboundStatus, OutboundIntent, get_outbound_intent}
use kuuna_support_agents.Outbound.Metadata.{HasDispatch}
use kuuna_support_agents.Outbound.Dispatch.{
  Env, World, JobEnd, returned, retryable_error, dispatch_error, crashed, is_sent,
  dispatch_outbound_intent_job, has_retry_available,
}
use kuuna_support_agents.Outbound.Dispatch.Runs.{Dispatched, EndsWith, dispatch_posts_once}

abbrev pub retry_intervals : List ℕ
retry_intervals = 30 ∷ 120 ∷ 300 ∷ []

-- The interval before the retry when `left` retries are left.
abbrev interval_at : ℕ → Option ℕ
interval_at zero = none
interval_at (suc zero) = some 300
interval_at (suc (suc zero)) = some 120
interval_at (suc (suc (suc n))) = some 30

-- What the run sees when `left` retries are left.
abbrev pub env_at : (ℕ → Env) → ℕ → Env
env_at envs left = record (envs left) { retry = interval_at left }

abbrev raises : JobEnd → Bool
raises returned = false
raises _ = true

-- The job, run again after an exception while retries are left.
pub run_with_retries : (ℕ → Env) → (show : ℕ → Text) → ℕ → (left : ℕ) → World → JobEnd × World
run_with_retries envs show i zero w =
    dispatch_outbound_intent_job (env_at envs zero) show (some i) w
run_with_retries envs show i (suc left) w =
    let (r, w') = dispatch_outbound_intent_job (env_at envs (suc left)) show (some i) w in
    elim (raises r) [ true ↦ run_with_retries envs show i left w' | false ↦ (r, w') ]

abbrev pub Settled : OutboundStatus → Type 0
Settled status = (status ≡ OutboundStatus.sent) ⊎ (status ≡ OutboundStatus.failed)

-- After at most `n` runs: the intent is settled, every attempt counted is a post, and there were at
-- most `n` of them.
abbrev SettledWithin : ℕ → ℕ → World → OutboundIntent → World → Type 0
SettledWithin n i w o after =
    (q : OutboundIntent) × (get_outbound_intent i after.intents ≡ some q)
    × Settled q.status
    × (q.attempt_count ≤ o.attempt_count + n)
    × (length after.posted + o.attempt_count ≡ length w.posted + q.attempt_count)

raise_leaves_unsent :
    (e : Env) (r : JobEnd) (s : OutboundStatus)
    → raises r ≡ true
    → EndsWith e r s
    → is_sent s ≡ false
raise_leaves_unsent e returned s h f = absurd (ground arith)
raise_leaves_unsent e retryable_error s h f = rw f.0
raise_leaves_unsent e dispatch_error s h f = rw f.0
raise_leaves_unsent e crashed s h f = rw f

return_settles :
    (e : Env) (r : JobEnd) (s : OutboundStatus) → raises r ≡ false → EndsWith e r s → Settled s
return_settles e returned s h f = f
return_settles e retryable_error s h f = absurd (ground arith)
return_settles e dispatch_error s h f = absurd (ground arith)
return_settles e crashed s h f = absurd (ground arith)

last_run_settles :
    (e : Env) (r : JobEnd) (s : OutboundStatus)
    → has_retry_available e ≡ false
    → EndsWith e r s
    → Settled s
last_run_settles e returned s h f = f
last_run_settles e retryable_error s h f = absurd (ground arith)
last_run_settles e dispatch_error s h f = inr f.0
last_run_settles e crashed s h f = inr f

module _ (envs : ℕ → Env) (show : ℕ → Text) (i : ℕ) where
  settle_step :
      (left : ℕ) (w : World) (o : OutboundIntent)
      → Dispatched
          (env_at envs (suc left))
          i
          w
          o
          (dispatch_outbound_intent_job (env_at envs (suc left)) show (some i) w)
      → ((w' : World) (q : OutboundIntent)
          → get_outbound_intent i w'.intents ≡ some q
          → is_sent q.status ≡ false
          → HasDispatch q.payload
          → SettledWithin (suc left) i w' q (run_with_retries envs show i left w').1)
      → SettledWithin (suc (suc left)) i w o (run_with_retries envs show i (suc left) w).1
  settle_step left w o (p, q, posted, qi, qa, fits, qd) again =
      let e = env_at envs (suc left) in
      let r = dispatch_outbound_intent_job e show (some i) w in
      elim (Bool-cases (raises r.0)) [
        | inr over ↦
            unfold run_with_retries in
            rw (over, run_with_retries)
              (
                q,
                qi,
                return_settles e r.0 q.status over fits,
                omega arith,
                omega (arith, ap (length {0}) posted, length-append {0} w.posted (p ∷ [])),
              )
        | inl more ↦
            let (z, zi, zs, za, zp) =
              again r.1 q qi (raise_leaves_unsent e r.0 q.status more fits) qd in
            unfold run_with_retries in
            rw (more, run_with_retries)
              (
                z,
                zi,
                zs,
                omega arith,
                omega (arith, ap (length {0}) posted, length-append {0} w.posted (p ∷ [])),
              )
      ]

  -- From a known intent that has not been sent, the job under `left` retries ends with the intent
  -- sent or failed, never pending or sending, after at most `left` + 1 posts; each post is counted as
  -- one attempt.
  pub dispatch_settles :
      (left : ℕ) (w : World) (o : OutboundIntent)
      → get_outbound_intent i w.intents ≡ some o
      → is_sent o.status ≡ false
      → HasDispatch o.payload
      → (q : OutboundIntent) × (get_outbound_intent i
            (run_with_retries envs show i left w).1.intents
          ≡ some q)
        × Settled q.status
        × (q.attempt_count ≤ o.attempt_count + suc left)
        × (length (run_with_retries envs show i left w).1.posted + o.attempt_count
            ≡ length w.posted + q.attempt_count)
  dispatch_settles zero w o found unsent has =
      let e = env_at envs zero in
      let (p, q, posted, qi, qa, fits, qd) = dispatch_posts_once e show i w o found unsent has in
      let r = dispatch_outbound_intent_job e show (some i) w in
      unfold run_with_retries in
      (
        q,
        qi,
        last_run_settles e r.0 q.status refl fits,
        omega arith,
        omega (arith, ap (length {0}) posted, length-append {0} w.posted (p ∷ [])),
      )
  dispatch_settles (suc left) w o found unsent has =
      settle_step left w o
        (dispatch_posts_once (env_at envs (suc left)) show i w o found unsent has)
        (dispatch_settles left)
