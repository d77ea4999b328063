-- ===== src/Outbound/Dispatch/Runs.antt =====
-- One run of the dispatch job of backend/src/kuuna_backend/jobs/outbound_dispatch.py.
use kuuna_support_agents.Common.{
  ℕ, ◌+◌, ◌≡◌, refl, ap, ◌∙◌, true, false, ◌⊎◌, inl, inr, none, some, List, [], ◌∷◌, ◌++◌, Text,
  if◌then◌else◌, update_where, arith, Bool-cases, find?-update_where, find?_holds,
}
use mathlib.Core.Option
use kuuna_support_agents.Common.Json.{Fields}
use kuuna_support_agents.Outbound.{
  OutboundStatus, OutboundIntent, marked, has_id, updated, get_outbound_intent,
  mark_outbound_intent, mark_outbound_intent_sending, sending_updates, sent_updates, failed_updates,
  retrying_updates,
}
use kuuna_support_agents.Outbound.Metadata.{HasDispatch, merge-HasDispatch, merge_total}
use kuuna_support_agents.Outbound.Dispatch.{
  Reply, response, transport_error, crash, Body, Env, World, JobEnd, returned, retryable_error,
  dispatch_error, crashed, is_sent, is_transient_status_code, has_retry_available, write_intents,
  http_status_handler, transport_handler, after_post, dispatch_outbound_intent_job, sent_report,
  http_report, transport_report, crash_report,
}

-- A known intent whose payload has a dict under `_dispatch` can be marked, and is then found with
-- the new status.
mark_lem :
    (status : OutboundStatus) (tries : ℕ) (u : Fields) (i : ℕ) (db : List OutboundIntent)
    (o : OutboundIntent)
    → get_outbound_intent i db ≡ some o
    → HasDispatch o.payload
    → (p : Fields) × (db' : List OutboundIntent) × (mark_outbound_intent status tries u i db
        ≡ (marked (updated status tries p o), db'))
      × (get_outbound_intent i db' ≡ some (updated status tries p o))
      × HasDispatch p
mark_lem status tries u i db o found has =
    let (p, merged) = merge_total o.payload u has in
    let same : o.outbound_intent_id ≡ i = ground (arith, find?_holds (has_id i) db o found) in
    (
      p,
      update_where (has_id o.outbound_intent_id) (updated status tries p) db,
      unfold mark_outbound_intent in rw (found, mark_outbound_intent) (rw merged),
      rw same (
          find?-update_where (has_id i) (has_id i) (updated status tries p) (λ x. ground arith) db
          ∙ ap (Option.map (λ x. if has_id i x then updated status tries p x else x)) found
          ∙ ap some (ground arith)),
      merge-HasDispatch o.payload u p merged,
    )

-- The intent is there after the step, with this status and number of attempts, and nothing more has
-- been posted.
abbrev Holds : ℕ → World → World → OutboundStatus → ℕ → Type 0
Holds i w after status attempts =
    (after.posted ≡ w.posted)
    × ((o : OutboundIntent) × (get_outbound_intent i after.intents ≡ some o)
        × (o.status ≡ status)
        × (o.attempt_count ≡ attempts)
        × HasDispatch o.payload)

write_lem :
    (status : OutboundStatus) (u : Fields) (i : ℕ) (w : World) (o : OutboundIntent) (end_ : JobEnd)
    → get_outbound_intent i w.intents ≡ some o
    → HasDispatch o.payload
    → let (r, after) = write_intents (mark_outbound_intent status 0 u i w.intents) end_ w in
      (r ≡ end_) × Holds i w after status o.attempt_count
write_lem status u i w o end_ found has =
    let (p, db', marks, there, kept) = mark_lem status 0 u i w.intents o found has in
    rw marks (refl, (refl, (updated status 0 p o, there, refl, omega arith, kept)))

-- The status that each way of ending leaves.
abbrev pub EndsWith : Env → JobEnd → OutboundStatus → Type 0
EndsWith e returned status = (status ≡ OutboundStatus.sent) ⊎ (status ≡ OutboundStatus.failed)
EndsWith e retryable_error status =
    (status ≡ OutboundStatus.sending) × (has_retry_available e ≡ true)
EndsWith e dispatch_error status =
    (status ≡ OutboundStatus.failed) × (has_retry_available e ≡ false)
EndsWith e crashed status = status ≡ OutboundStatus.failed

abbrev Ended : Env → ℕ → World → ℕ → JobEnd × World → Type 0
Ended e i w attempts r =
    (status : OutboundStatus) × EndsWith e r.0 status × Holds i w r.1 status attempts

module _ (e : Env) (show : ℕ → Text) (i : ℕ) (w : World) (o : OutboundIntent)
    (found : get_outbound_intent i w.intents ≡ some o) (has : HasDispatch o.payload) where
  -- A step that marks the intent and ends in a way that fits the mark.
  mark_ends :
      (status : OutboundStatus) (u : Fields) (end_ : JobEnd)
      → EndsWith e end_ status
      → Ended e i w o.attempt_count
          (write_intents (mark_outbound_intent status 0 u i w.intents) end_ w)
  mark_ends status u end_ fits =
      let (same, holds) = write_lem status u i w o end_ found has in (status, rw same fits, holds)

  http_status_handler-Ended :
      (code : ℕ) (body : Body)
      → Ended e i w o.attempt_count (http_status_handler e show i code body w)
  unfolding http_status_handler
  http_status_handler-Ended code body = elim (Bool-cases (is_transient_status_code code)) [
    | inr lasting ↦ rw lasting (
        mark_ends OutboundStatus.failed (failed_updates (http_report e show code body none))
          returned (inr refl))
    | inl transient ↦ rw transient (elim (Bool-cases (has_retry_available e)) [
      | inl again ↦ rw again (
          mark_ends OutboundStatus.sending (retrying_updates (http_report e show code body e.retry))
            retryable_error (refl, again))
      | inr over ↦ rw over (
          mark_ends OutboundStatus.failed (failed_updates (http_report e show code body none))
            dispatch_error (refl, over))
    ])
  ]

  transport_handler-Ended :
      (message : Text) → Ended e i w o.attempt_count (transport_handler e i message w)
  unfolding transport_handler
  transport_handler-Ended message = elim (Bool-cases (has_retry_available e)) [
    | inl again ↦ rw again (
        mark_ends OutboundStatus.sending (retrying_updates (transport_report e message e.retry))
          retryable_error (refl, again))
    | inr over ↦ rw over (
        mark_ends OutboundStatus.failed (failed_updates (transport_report e message none))
          dispatch_error (refl, over))
  ]

  after_post-Ended : (r : Reply) → Ended e i w o.attempt_count (after_post e show i r w)
  after_post-Ended (response code body) = elim (Bool-cases (e.raises_for_status code)) [
    | inl bad ↦
        let handled = http_status_handler-Ended code body in unfold after_post in rw bad handled
    | inr good ↦
        let finished =
          mark_ends OutboundStatus.sent (sent_updates (sent_report e body)) returned (inl refl) in
        unfold after_post in rw good finished
  ]
  after_post-Ended (transport_error message) =
      let handled = transport_handler-Ended message in unfold after_post in handled
  after_post-Ended (crash message) =
      let handled =
        mark_ends OutboundStatus.failed (failed_updates (crash_report e message)) crashed refl in
      unfold after_post in handled

-- What one run does with an intent that has not been sent: the payload posted, and the intent after
-- the run.
abbrev pub Dispatched : Env → ℕ → World → OutboundIntent → JobEnd × World → Type 0
Dispatched e i w o r =
    (p : Fields) × (q : OutboundIntent) × (r.1.posted ≡ w.posted ++ p ∷ [])
    × (get_outbound_intent i r.1.intents ≡ some q)
    × (q.attempt_count ≡ o.attempt_count + 1)
    × EndsWith e r.0 q.status
    × HasDispatch q.payload

dispatch-eq :
    (e : Env) (show : ℕ → Text) (i : ℕ) (w : World) (o : OutboundIntent) (p : Fields)
    (db : List OutboundIntent)
    → get_outbound_intent i w.intents ≡ some o
    → is_sent o.status ≡ false
    → mark_outbound_intent_sending e.now i w.intents
      ≡ (marked (updated OutboundStatus.sending 1 p o), db)
    → dispatch_outbound_intent_job e show (some i) w
      ≡ after_post e show i (e.post p) (record { intents = db; posted = w.posted ++ p ∷ [] })
unfolding dispatch_outbound_intent_job
dispatch-eq e show i w o p db found unsent marks =
    rw (found, dispatch_outbound_intent_job) (rw unsent (rw marks))

-- A run for a known intent that has not been sent posts exactly one payload to the gateway and
-- counts exactly one attempt, whatever the gateway answers. If the job function returns, the intent
-- is then sent or failed; if it asks for a retry, the intent is sending and the queue has a retry
-- left; if it raises for good, the intent is failed and, but for a crash, no retry was left.
pub dispatch_posts_once :
    (e : Env) (show : ℕ → Text) (i : ℕ) (w : World) (o : OutboundIntent)
    → get_outbound_intent i w.intents ≡ some o
    → is_sent o.status ≡ false
    → HasDispatch o.payload
    → Dispatched e i w o (dispatch_outbound_intent_job e show (some i) w)
dispatch_posts_once e show i w o found unsent has =
    let (p, db, marks, there, kept) =
      mark_lem OutboundStatus.sending 1 (sending_updates e.now) i w.intents o found has in
    let o' = updated OutboundStatus.sending 1 p o in
    let w' : World = record { intents = db; posted = w.posted ++ p ∷ [] } in
    let (status, fits, holds) = after_post-Ended e show i w' o' there kept (e.post p) in
    let (posted, rest) = holds in
    let (q, qi, qs, qa, qd) = rest in
    rw (dispatch-eq e show i w o p db found unsent marks) (p, q, posted, qi, qa, rw qs fits, qd)

-- A run for an intent that has been sent, or that is not there, posts nothing and changes nothing.
dispatch_skips :
    (e : Env) (show : ℕ → Text) (i : ℕ) (w : World)
    → (get_outbound_intent i w.intents ≡ none)
      ⊎ ((o : OutboundIntent) × (get_outbound_intent i w.intents ≡ some o)
          × (o.status ≡ OutboundStatus.sent))
    → dispatch_outbound_intent_job e show (some i) w ≡ (returned, w)
unfolding dispatch_outbound_intent_job
dispatch_skips e show i w (inl h) = ground arith
dispatch_skips e show i w (inr (o, found, s)) = ground arith

-- The world after the job has run in each of these environments, one after the other.
abbrev pub runs : List Env → (show : ℕ → Text) → ℕ → World → World
runs [] show i w = w
runs (e ∷ es) show i w = runs es show i (dispatch_outbound_intent_job e show (some i) w).1

runs_of_sent :
    (es : List Env) (show : ℕ → Text) (i : ℕ) (w : World) (o : OutboundIntent)
    → get_outbound_intent i w.intents ≡ some o
    → o.status ≡ OutboundStatus.sent
    → runs es show i w ≡ w
runs_of_sent [] show i w o found sent = refl
runs_of_sent (e ∷ es) show i w o found sent =
    rw (dispatch_skips e show i w (inr (o, found, sent))) (runs_of_sent es show i w o found sent)

-- The intent has been posted once since `w`, and is sent.
abbrev pub IsDelivered : ℕ → World → World → Type 0
IsDelivered i w after =
    ((p : Fields) × (after.posted ≡ w.posted ++ p ∷ []))
    × ((q : OutboundIntent) × (get_outbound_intent i after.intents ≡ some q)
        × (q.status ≡ OutboundStatus.sent))

accepted-IsDelivered :
    (e : Env) (show : ℕ → Text) (i : ℕ) (w : World) (o : OutboundIntent)
    → get_outbound_intent i w.intents ≡ some o
    → is_sent o.status ≡ false
    → HasDispatch o.payload
    → ((p : Fields)
        → (code : ℕ) × (body : Body) × (e.post p ≡ response code body)
          × (e.raises_for_status code ≡ false))
    → IsDelivered i w (dispatch_outbound_intent_job e show (some i) w).1
unfolding after_post
accepted-IsDelivered e show i w o found unsent has accepts =
    let (p, db, marks, there, kept) =
      mark_lem OutboundStatus.sending 1 (sending_updates e.now) i w.intents o found has in
    let o' = updated OutboundStatus.sending 1 p o in
    let w' : World = record { intents = db; posted = w.posted ++ p ∷ [] } in
    let (code, body, answer, good) = accepts p in
    let (same, (posted, (q, qi, qs, qa, qd))) =
      write_lem OutboundStatus.sent (sent_updates (sent_report e body)) i w' o' returned there
        kept in
    rw (dispatch-eq e show i w o p db found unsent marks, answer, good) ((p, posted), (q, qi, qs))

-- If the gateway accepts the post of a known intent that has not been sent, the intent is sent and has
-- been posted once, however often the job runs again after that and whatever the gateway would answer.
pub dispatch_delivers_once :
    (e : Env) (again : List Env) (show : ℕ → Text) (i : ℕ) (w : World) (o : OutboundIntent)
    → get_outbound_intent i w.intents ≡ some o
    → is_sent o.status ≡ false
    → HasDispatch o.payload
    → ((p : Fields)
        → (code : ℕ) × (body : Body) × (e.post p ≡ response code body)
          × (e.raises_for_status code ≡ false))
    → IsDelivered i w (runs (e ∷ again) show i w)
dispatch_delivers_once e again show i w o found unsent has accepts =
    let (p, (q, qi, qs)) = accepted-IsDelivered e show i w o found unsent has accepts in
    rw (runs_of_sent again show i (dispatch_outbound_intent_job e show (some i) w).1 q qi qs)
      (p, (q, qi, qs))
