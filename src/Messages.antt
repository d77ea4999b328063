-- ===== src/Messages.antt =====
-- Inbound events: backend/src/kuuna_backend/domain/messages/ingest.py and trigger.py. Every call runs
-- in one session with one commit; a broken unique constraint, or a text that is
-- too long for its column of a message, raises and leaves the tables. The ids
-- that the database draws, the payload that stands for a missing raw event, and whether the queue
-- accepts a job are given with each delivery.
pub mod History
pub mod Effects
mod Tests
use kuuna_support_agents.Common.{
  leb, length, ℕ, zero, suc, ◌+◌, ◌≡◌, Bool, true, false, ◌&&◌, ◌||◌, not, Option, none, some, List,
  [], ◌∷◌, ◌++◌, Text, codes, text_eq, lstrip, starts_with, find?, any, update_where, if◌then◌else◌,
  ◌==◌, is_empty,
}
use kuuna_support_agents.Common.Json.{Fields, str, field, end}

pub data MessageEventType : Type 0 where
  created edited deleted : MessageEventType

pub record Media : Type 0 where
  pub provider_media_id : Option Text
  pub mime_type : Text
  pub file_name : Option Text
  pub byte_size : Option ℕ
  pub download_url : Option Text
  pub inline_data_base64 : Option Text

pub record GatewayInboundEvent : Type 0 where
  pub provider_group_id : Text
  pub provider_message_id : Text
  pub sender_provider_user_id : Option Text
  pub event_type : MessageEventType
  pub text : Option Text
  pub mentions : List Text
  pub reply_to_provider_message_id : Option Text
  pub media : List Media
  pub raw_event : Fields
  pub occurred_at : ℕ

pub record Message : Type 0 where
  pub id : ℕ
  pub provider_group_id : Text
  pub provider_message_id : Text
  pub sender_provider_user_id : Option Text
  pub latest_version_no : ℕ

pub record MessageVersion : Type 0 where
  pub message_id : ℕ
  pub version_no : ℕ
  pub event_type : MessageEventType
  pub is_deleted : Bool
  pub text_content : Option Text
  pub raw_event : Fields
  pub occurred_at : ℕ

-- Every asset is stored as pending.
pub record MediaAsset : Type 0 where
  pub id : ℕ
  pub message_id : ℕ
  pub provider_media_id : Option Text
  pub mime_type : Text
  pub file_name : Option Text
  pub byte_size : Option ℕ
  pub metadata_json : Fields

pub record Store : Type 0 where
  pub messages : List Message
  pub message_versions : List MessageVersion
  pub media_assets : List MediaAsset
  -- The jobs that the queue has accepted, by the id of the asset or of the message.
  pub media_jobs : List ℕ
  pub execution_jobs : List ℕ

pub record Env : Type 0 where
  pub message_id : ℕ
  pub media_id : ℕ → ℕ
  pub model_dump : GatewayInboundEvent → Fields
  pub accepts_media : ℕ → Bool
  pub accepts_execution : Bool

pub data Reason : Type 0 where
  mention_present reply_to_present prefix_match no_trigger_match : Reason

pub record TriggerDecision : Type 0 where
  pub should_execute : Bool
  pub reason : Reason

abbrev pub is_text : Option Text → Bool
is_text none = false
is_text (some t) = not (is_empty t)

abbrev pub text_or_empty : Option Text → Text
text_or_empty none = []
text_or_empty (some t) = t

-- `TRIGGER_PREFIXES`
abbrev pub trigger_prefixes : List Text
trigger_prefixes = codes "kuuna:" ∷ codes "/kuuna" ∷ codes "!kuuna" ∷ []

-- `evaluate_trigger`
pub evaluate_trigger : GatewayInboundEvent → TriggerDecision
evaluate_trigger e =
    if not (is_empty e.mentions)
    then record { should_execute = true; reason = mention_present }
    else (if is_text e.reply_to_provider_message_id
        then record { should_execute = true; reason = reply_to_present }
        else (if any (starts_with (lstrip (text_or_empty e.text))) trigger_prefixes
            then record { should_execute = true; reason = prefix_match }
            else record { should_execute = false; reason = no_trigger_match }))

abbrev pub has_id : ℕ → Message → Bool
has_id i m = m.id == i

abbrev pub has_key : Text → Text → Message → Bool
has_key g p m = text_eq m.provider_group_id g && text_eq m.provider_message_id p

abbrev pub is_created : MessageEventType → Bool
is_created MessageEventType.created = true
is_created _ = false

abbrev pub is_deletion : MessageEventType → Bool
is_deletion MessageEventType.deleted = true
is_deletion _ = false

abbrev or_fields : Fields → Fields → Fields
or_fields end d = d
or_fields (field k v r) d = field k v r

abbrev add_text : Option Text → (Text → Fields → Fields) → Fields → Fields
add_text none put d = d
add_text (some []) put d = d
add_text (some (c ∷ t)) put d = put (c ∷ t) d

abbrev media_metadata : Text → Media → Fields
media_metadata group m = field "provider_group_id" (str group) (
    add_text m.download_url (λ t d. field "download_url" (str t) d)
      (add_text m.inline_data_base64 (λ t d. field "inline_data_base64" (str t) d) end))

-- The loop over the media of the event; `n` is the position.
pub media_rows : Env → GatewayInboundEvent → (message_id n : ℕ) → List Media → List MediaAsset
media_rows v e i n [] = []
media_rows v e i n (m ∷ ms) =
    (record {
      id = v.media_id n;
      message_id = i;
      provider_media_id = m.provider_media_id;
      mime_type = m.mime_type;
      file_name = m.file_name;
      byte_size = m.byte_size;
      metadata_json = media_metadata e.provider_group_id m;
    })
    ∷ media_rows v e i (suc n) ms

abbrev version_row : Env → GatewayInboundEvent → ℕ → ℕ → MessageVersion
version_row v e i n = record {
  message_id = i;
  version_no = n;
  event_type = e.event_type;
  is_deleted = is_deletion e.event_type;
  text_content = e.text;
  raw_event = or_fields e.raw_event (v.model_dump e);
  occurred_at = e.occurred_at;
}

-- The enqueueing of the media jobs; a refusal is logged and passed over.
pub accepted_media : Env → List MediaAsset → List ℕ
accepted_media v [] = []
accepted_media v (a ∷ as_) =
    let rest = accepted_media v as_ in if v.accepts_media a.id then a.id ∷ rest else rest

abbrev is_executed : Env → GatewayInboundEvent → TriggerDecision → Bool
is_executed v e d = d.should_execute && not (is_deletion e.event_type) && v.accepts_execution

pub data Ingested : Type 0 where
  raised deduped : Ingested
  persisted : TriggerDecision → (execution_enqueued : Bool) → Ingested

-- What follows once the row of the message is there: the version, the assets, the commit and the jobs.
persist_version :
    Env
    → GatewayInboundEvent
    → (message_id version_no : ℕ) → List Message
    → Store
    → Ingested × Store
unfolding evaluate_trigger media_rows accepted_media
persist_version v e i n messages db =
    let assets = media_rows v e i 0 e.media in
    let decision = evaluate_trigger e in
    let executed = is_executed v e decision in
    (
      persisted decision executed,
      record {
        messages = messages;
        message_versions = db.message_versions ++ version_row v e i n ∷ [];
        media_assets = db.media_assets ++ assets;
        media_jobs = db.media_jobs ++ accepted_media v assets;
        execution_jobs = if executed then db.execution_jobs ++ i ∷ [] else db.execution_jobs;
      },
    )

abbrev pub next_version : Message → Message
next_version m = record m { latest_version_no = suc m.latest_version_no }

abbrev new_message : Env → GatewayInboundEvent → Message
new_message v e = record {
  id = v.message_id;
  provider_group_id = e.provider_group_id;
  provider_message_id = e.provider_message_id;
  sender_provider_user_id = e.sender_provider_user_id;
  latest_version_no = 1;
}

-- The three columns of a message that hold texts of the event have 255 characters.
abbrev fits : Text → Bool
fits t = leb (length t) 255

abbrev sender_fits : Option Text → Bool
sender_fits none = true
sender_fits (some t) = fits t

abbrev is_storable : GatewayInboundEvent → Bool
is_storable e =
    fits e.provider_group_id && fits e.provider_message_id && sender_fits e.sender_provider_user_id

-- The insertion of a new message raises.
abbrev is_refused : Env → GatewayInboundEvent → Store → Bool
is_refused v e db = any (has_id v.message_id) db.messages || not (is_storable e)

-- `persist_inbound_event`
pub persist_inbound_event : Env → GatewayInboundEvent → Store → Ingested × Store
unfolding persist_version
persist_inbound_event v e db =
    elim (find? (has_key e.provider_group_id e.provider_message_id) db.messages) [
      | none ↦
          if is_refused v e db
          then (raised, db)
          else persist_version v e v.message_id 1 (db.messages ++ new_message v e ∷ []) db
      | some m ↦
          if is_created e.event_type
          then (deduped, db)
          else persist_version v e m.id (suc m.latest_version_no)
              (update_where (has_id m.id) next_version db.messages) db
    ]
