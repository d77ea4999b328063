-- ===== src/Outbound.antt =====
-- Outbound intents: backend/src/kuuna_backend/domain/outbound/service.py. A timestamp is the text
-- that the caller's clock gave. Each call runs in one session and commits once.
pub mod Metadata
pub mod Creation
pub mod Dispatch
mod Tests
use kuuna_support_agents.Common.{
  ℕ, zero, suc, ◌+◌, ◌≡◌, Bool, true, false, Option, none, some, List, [], ◌∷◌, ◌++◌, Text, String,
  codes, ◌==◌, if◌then◌else◌, find?, any, not, update_where, ◌||◌,
}
use kuuna_support_agents.Common.Json.{
  decimal, pos, negsuc, Json, Items, Fields, null, bool, num, str, arr, obj, nil, cons, end, field,
  get, put, update, set_default,
}

pub data OutboundStatus : Type 0 where
  pending sending sent failed : OutboundStatus

pub record OutboundIntent : Type 0 where
  pub outbound_intent_id : ℕ
  pub provider_group_id : Text
  pub status : OutboundStatus
  pub attempt_count : ℕ
  pub payload : Fields

-- `dict(value or {})`: a dict, or `none` for the exception. A list of pairs, which `dict` would take
-- too, is stored by no caller and counts as an exception.
abbrev pub as_dict : Option Json → Option Fields
as_dict none = some end
as_dict (some null) = some end
as_dict (some (bool false)) = some end
as_dict (some (bool true)) = none
as_dict (some (num (pos zero))) = some end
as_dict (some (num (pos (suc n)))) = none
as_dict (some (num (negsuc n))) = none
as_dict (some (decimal negative zero scale)) = some end
as_dict (some (decimal negative (suc n) scale)) = none
as_dict (some (str [])) = some end
as_dict (some (str (c ∷ s))) = none
as_dict (some (arr nil)) = some end
as_dict (some (arr (cons j js))) = none
as_dict (some (obj d)) = some d

-- `_merge_dispatch_metadata`
unfoldable pub merge_dispatch_metadata : Fields → Fields → Option Fields
merge_dispatch_metadata payload updates = elim (as_dict (get "_dispatch" payload)) [
  | none ↦ none
  | some dispatch ↦ some (put "_dispatch" (obj (update dispatch updates)) payload)
]

abbrev pub has_id : ℕ → OutboundIntent → Bool
has_id i o = o.outbound_intent_id == i

-- `get_outbound_intent`
abbrev pub get_outbound_intent : ℕ → List OutboundIntent → Option OutboundIntent
get_outbound_intent i = find? (has_id i)

pub data Marked : Type 0 where
  missing raised : Marked
  marked : OutboundIntent → Marked

abbrev pub updated : OutboundStatus → ℕ → Fields → OutboundIntent → OutboundIntent
updated status tries payload o = record o {
  status = status;
  attempt_count = o.attempt_count + tries;
  payload = payload;
}

abbrev write_mark :
    OutboundStatus
    → ℕ
    → OutboundIntent
    → Option Fields
    → List OutboundIntent
    → Marked × List OutboundIntent
write_mark status tries o none db = (raised, db)
write_mark status tries o (some payload) db = (
  marked (updated status tries payload o),
  update_where (has_id o.outbound_intent_id) (updated status tries payload) db,
)

-- What the four `mark_outbound_intent_*` functions share: the lookup, the new status, the metadata
-- and the commit. `tries` is 1 where the function counts an attempt.
pub mark_outbound_intent :
    OutboundStatus
    → (tries : ℕ) → (updates : Fields) → ℕ
    → List OutboundIntent
    → Marked × List OutboundIntent
mark_outbound_intent status tries updates i db = elim (get_outbound_intent i db) [
  | none ↦ (missing, db)
  | some o ↦ write_mark status tries o (merge_dispatch_metadata o.payload updates) db
]

abbrev pub text_json : Option Text → Json
text_json none = null
text_json (some t) = str t

abbrev pub number_json : Option ℕ → Json
number_json none = null
number_json (some n) = num (pos n)

-- `_optional_mapping_to_dict`: an empty mapping becomes `None`.
abbrev pub mapping_json : Option Fields → Json
mapping_json none = null
mapping_json (some end) = null
mapping_json (some (field k v d)) = obj (field k v d)

-- The optional arguments of the three report functions.
pub record Report : Type 0 where
  pub error_code : Option Text
  pub error_message : Option Text
  pub provider_message_id : Option Text
  pub response_payload : Option Fields
  pub occurred_at : Text
  pub retry_in_seconds : Option ℕ

abbrev sending_updates : Text → Fields
sending_updates now = field "last_status" (str (codes "sending")) (
    field "last_attempt_at" (str now) (
      field "last_error_code" null
        (field "last_error_message" null (field "next_retry_in_seconds" null end))))

abbrev retrying_updates : Report → Fields
retrying_updates r = field "last_status" (str (codes "retrying")) (
    field "retrying_at" (str r.occurred_at) (
      field "provider_message_id" (text_json r.provider_message_id) (
        field "last_error_code" (text_json r.error_code) (
          field "last_error_message" (text_json r.error_message) (
            field "last_response" (mapping_json r.response_payload)
              (field "next_retry_in_seconds" (number_json r.retry_in_seconds) end))))))

abbrev sent_updates : Report → Fields
sent_updates r = field "last_status" (str (codes "sent")) (
    field "sent_at" (str r.occurred_at) (
      field "provider_message_id" (text_json r.provider_message_id) (
        field "last_error_code" null (
          field "last_error_message" null (
            field "last_response" (mapping_json r.response_payload)
              (field "next_retry_in_seconds" null end))))))

abbrev pub failed_updates : Report → Fields
failed_updates r = field "last_status" (str (codes "failed")) (
    field "failed_at" (str r.occurred_at) (
      field "provider_message_id" (text_json r.provider_message_id) (
        field "last_error_code" (text_json r.error_code) (
          field "last_error_message" (text_json r.error_message) (
            field "last_response" (mapping_json r.response_payload)
              (field "next_retry_in_seconds" null end))))))

abbrev pub mark_outbound_intent_sending :
    Text → ℕ → List OutboundIntent → Marked × List OutboundIntent
mark_outbound_intent_sending now =
    mark_outbound_intent OutboundStatus.sending 1 (sending_updates now)

abbrev pub mark_outbound_intent_retrying :
    Report → ℕ → List OutboundIntent → Marked × List OutboundIntent
mark_outbound_intent_retrying r = mark_outbound_intent OutboundStatus.sending 0 (retrying_updates r)

abbrev pub mark_outbound_intent_sent :
    Report → ℕ → List OutboundIntent → Marked × List OutboundIntent
mark_outbound_intent_sent r = mark_outbound_intent OutboundStatus.sent 0 (sent_updates r)

abbrev pub mark_outbound_intent_failed :
    Report → ℕ → List OutboundIntent → Marked × List OutboundIntent
mark_outbound_intent_failed r = mark_outbound_intent OutboundStatus.failed 0 (failed_updates r)

abbrev new_intent : ℕ → Text → Fields → OutboundIntent
new_intent i group payload = record {
  outbound_intent_id = i;
  provider_group_id = group;
  status = OutboundStatus.pending;
  attempt_count = 0;
  payload = payload;
}

abbrev insert_intent : ℕ → Text → Option Fields → List OutboundIntent → Marked × List OutboundIntent
insert_intent i group none db = (raised, db)
insert_intent i group (some payload) db =
    let o = new_intent i group payload in
    if any (has_id i) db then (raised, db) else (marked o, db ++ o ∷ [])

-- `create_outbound_intent` with the id given or drawn by the caller; `show` prints a UUID. A second
-- intent of the same id breaks the unique constraint and raises.
unfoldable pub create_outbound_intent :
    (show : ℕ → Text) (now : Text) (group : Text) (payload : Fields) (i : ℕ)
    → List OutboundIntent
    → Marked × List OutboundIntent
create_outbound_intent show now group payload i db =
    let normalized =
      set_default "provider_group_id" (str group)
        (set_default "outbound_intent_id" (str (show i)) payload) in
    insert_intent i group
      (merge_dispatch_metadata normalized
        (field "created_at" (str now) (field "last_status" (str (codes "pending")) end)))
      db
