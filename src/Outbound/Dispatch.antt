-- ===== src/Outbound/Dispatch.antt =====
-- The dispatch job of backend/src/kuuna_backend/jobs/outbound_dispatch.py. The gateway, the queue and
-- the clock are parameters: what a post answers, whether the queue has a retry left and after how
-- many seconds, and the time. The world is the table of intents and the payloads posted so far.
pub mod Runs
pub mod Schedule
use kuuna_support_agents.Common.{
  ℕ, zero, suc, ◌≡◌, Bool, true, false, ◌&&◌, ◌||◌, Option, none, some, List, [], ◌∷◌, ◌++◌, Text,
  codes, ◌==◌, if◌then◌else◌, take, strip, String, is_empty,
}
use kuuna_support_agents.Common.Json.{Json, Fields, null, bool, num, str, arr, obj, end, field, get}
use kuuna_support_agents.Outbound.{
  OutboundStatus, OutboundIntent, Marked, missing, raised, marked, Report, get_outbound_intent,
  mark_outbound_intent_sending, mark_outbound_intent_retrying, mark_outbound_intent_sent,
  mark_outbound_intent_failed,
}

-- What a post came back with. A body is JSON or text that is no JSON; `transport_error` is an
-- `httpx.HTTPError` without a response, `crash` any other exception, each with its message.
pub data Body : Type 0 where
  json_body : Json → Body
  text_body : Text → Body

pub data Reply : Type 0 where
  response : (status_code : ℕ) → Body → Reply
  transport_error crash : Text → Reply

pub record Env : Type 0 where
  pub now : Text
  pub post : Fields → Reply
  -- `response.raise_for_status()` raises for this status, with this message.
  pub raises_for_status : ℕ → Bool
  pub status_message : ℕ → Text
  -- `current_job.should_retry` and `current_job.get_retry_interval()`.
  pub retry : Option ℕ

pub record World : Type 0 where
  pub intents : List OutboundIntent
  pub posted : List Fields

-- How the job function ended: by `return`, or by one of the exceptions.
pub data JobEnd : Type 0 where
  returned retryable_error dispatch_error crashed : JobEnd

-- `TRANSIENT_HTTP_STATUS_CODES`
pub is_transient_status_code : ℕ → Bool
is_transient_status_code c =
    c == 408 || c == 425 || c == 429 || c == 500 || c == 502 || c == 503 || c == 504

-- `_safe_response_payload`
pub safe_response_payload : Body → Fields
safe_response_payload (json_body (obj d)) = d
safe_response_payload (json_body j) = field "data" j end
safe_response_payload (text_body t) =
    let s = strip t in if is_empty s then end else field "text" (str (take 2000 s)) end

abbrev non_empty_text : Option Json → Option Text
non_empty_text (some (str (c ∷ s))) = some (c ∷ s)
non_empty_text _ = none

abbrev or_else {ℓ} : {A : Type ℓ} → Option A → Option A → Option A
or_else none b = b
or_else (some a) b = some a

-- `_extract_provider_message_id`
pub extract_provider_message_id : Fields → Option Text
extract_provider_message_id d =
    or_else (non_empty_text (get "provider_message_id" d))
      (or_else (non_empty_text (get "message_id" d)) (non_empty_text (get "id" d)))

abbrev has_retry_available : Env → Bool
has_retry_available e = elim e.retry [ none ↦ false | some _ ↦ true ]

abbrev write_intents : Marked × List OutboundIntent → JobEnd → World → JobEnd × World
write_intents (raised, db) end_ w = (crashed, w)
write_intents (missing, db) end_ w = (end_, w)
write_intents (marked o, db) end_ w = (end_, record w { intents = db })

abbrev crash_report : Env → Text → Report
crash_report e message = record {
  error_code = some (codes "outbound_dispatch_exception");
  error_message = some message;
  provider_message_id = none;
  response_payload = none;
  occurred_at = e.now;
  retry_in_seconds = none;
}

-- `except Exception`: the rollback, an attempt to mark the intent failed, and the exception again.
crash_handler : Env → ℕ → Text → World → JobEnd × World
crash_handler e i message w =
    write_intents (mark_outbound_intent_failed (crash_report e message) i w.intents) crashed w

abbrev http_report : Env → (show : ℕ → Text) → ℕ → Body → Option ℕ → Report
http_report e show code body delay =
    let payload = safe_response_payload body in
    record {
      error_code = some (codes "gateway_http_" ++ show code);
      error_message = some (e.status_message code);
      provider_message_id = extract_provider_message_id payload;
      response_payload = some payload;
      occurred_at = e.now;
      retry_in_seconds = delay;
    }

-- `except httpx.HTTPStatusError`
http_status_handler : Env → (show : ℕ → Text) → ℕ → ℕ → Body → World → JobEnd × World
unfolding is_transient_status_code
http_status_handler e show i code body w =
    if is_transient_status_code code && has_retry_available e
    then write_intents
        (mark_outbound_intent_retrying (http_report e show code body e.retry) i w.intents)
        retryable_error w
    else write_intents (mark_outbound_intent_failed (http_report e show code body none) i w.intents)
        (if is_transient_status_code code then dispatch_error else returned) w

abbrev transport_report : Env → Text → Option ℕ → Report
transport_report e message delay = record {
  error_code = some (codes "gateway_transport_error");
  error_message = some message;
  provider_message_id = none;
  response_payload = none;
  occurred_at = e.now;
  retry_in_seconds = delay;
}

-- `except httpx.HTTPError`
transport_handler : Env → ℕ → Text → World → JobEnd × World
transport_handler e i message w =
    if has_retry_available e
    then write_intents
        (mark_outbound_intent_retrying (transport_report e message e.retry) i w.intents)
        retryable_error w
    else write_intents (mark_outbound_intent_failed (transport_report e message none) i w.intents)
        dispatch_error w

abbrev sent_report : Env → Body → Report
sent_report e body =
    let payload = safe_response_payload body in
    record {
      error_code = none;
      error_message = none;
      provider_message_id = extract_provider_message_id payload;
      response_payload = some payload;
      occurred_at = e.now;
      retry_in_seconds = none;
    }

-- The job after the post.
after_post : Env → (show : ℕ → Text) → ℕ → Reply → World → JobEnd × World
unfolding http_status_handler transport_handler crash_handler
after_post e show i (response code body) w =
    if e.raises_for_status code
    then http_status_handler e show i code body w
    else write_intents (mark_outbound_intent_sent (sent_report e body) i w.intents) returned w
after_post e show i (transport_error message) w = transport_handler e i message w
after_post e show i (crash message) w = crash_handler e i message w

abbrev is_sent : OutboundStatus → Bool
is_sent OutboundStatus.sent = true
is_sent _ = false

-- The marking as SENDING, and the post of the intent's payload.
send_marked : Env → (show : ℕ → Text) → ℕ → Marked × List OutboundIntent → World → JobEnd × World
unfolding after_post
send_marked e show i (missing, db) w = (returned, w)
send_marked e show i (raised, db) w = crash_handler e i (codes "TypeError") w
send_marked e show i (marked o, db) w =
    after_post e show i (e.post o.payload)
      (record { intents = db; posted = w.posted ++ o.payload ∷ [] })

-- `dispatch_outbound_intent_job`; `none` is an id that is no UUID, and `show` prints a status code.
pub dispatch_outbound_intent_job : Env → (show : ℕ → Text) → Option ℕ → World → JobEnd × World
unfolding send_marked
dispatch_outbound_intent_job e show none w = (returned, w)
dispatch_outbound_intent_job e show (some i) w = elim (get_outbound_intent i w.intents) [
  | none ↦ (returned, w)
  | some o ↦
      if is_sent o.status
      then (returned, w)
      else send_marked e show i (mark_outbound_intent_sending e.now i w.intents) w
]
