-- ===== src/Messages/Tests.antt =====
-- Inbound events at concrete stores.
use kuuna_support_agents.Common.{
  ℕ, ◌≡◌, ◌≢◌, refl, true, none, some, [], ◌∷◌, codes, arith, List, starts_with, lstrip, is_space,
}
use kuuna_support_agents.Common.Json.{end}
use kuuna_support_agents.Messages.{
  Env, GatewayInboundEvent, MessageEventType, Store, TriggerDecision, Reason, persisted, deduped,
  raised, persist_inbound_event,
}
use kuuna_support_agents.Messages.History.{
  IsValid, Delivery, ingest_all, version_numbers, messages_history-IsValid,
}
use kuuna_support_agents.Messages.Effects.{Added, created_once, persisted_effect}

abbrev event : MessageEventType → GatewayInboundEvent
event t = record {
  provider_group_id = codes "g1";
  provider_message_id = codes "m1";
  sender_provider_user_id = some (codes "ann");
  event_type = t;
  text = some (codes " kuuna: help");
  mentions = [];
  reply_to_provider_message_id = none;
  media = [];
  raw_event = end;
  occurred_at = 5;
}

abbrev env : ℕ → Env
env i = record {
  message_id = i;
  media_id = λ n. n;
  model_dump = λ e. end;
  accepts_media = λ i. true;
  accepts_execution = true;
}

abbrev empty : Store
empty = record {
  messages = [];
  message_versions = [];
  media_assets = [];
  media_jobs = [];
  execution_jobs = [];
}

empty-IsValid : IsValid empty
unfolding version_numbers
empty-IsValid = record { agree = λ g p m h. absurd (ground arith); numbered = λ i. refl }

abbrev deliveries : List Delivery
deliveries =
    (record { env = env 1; event = event MessageEventType.created })
    ∷ (record { env = env 2; event = event MessageEventType.edited })
    ∷ (record { env = env 3; event = event MessageEventType.created })
    ∷ (record { env = env 4; event = event MessageEventType.deleted })
    ∷ []

messages_history-IsValid_example : IsValid (ingest_all deliveries empty)
messages_history-IsValid_example = messages_history-IsValid deliveries empty empty-IsValid

abbrev decision : TriggerDecision
decision = record { should_execute = true; reason = Reason.prefix_match }

first_lem :
    (persist_inbound_event (env 1) (event MessageEventType.created) empty).0
    ≡ persisted decision true
unfolding persist_inbound_event starts_with lstrip is_space
first_lem = refl

first_stored : (persist_inbound_event (env 1) (event MessageEventType.created) empty).0 ≢ raised
first_stored h = absurd (ground (arith, first_lem))

created_once_example :
    let after =
      ingest_all deliveries
        (persist_inbound_event (env 1) (event MessageEventType.created) empty).1 in
    persist_inbound_event (env 9) (event MessageEventType.created) after ≡ (deduped, after)
created_once_example =
    created_once (env 1) (env 9) (event MessageEventType.created) (event MessageEventType.created)
      deliveries empty first_stored refl refl refl

persisted_effect_example :
    Added
      (env 1)
      (event MessageEventType.created)
      empty
      true
      (persist_inbound_event (env 1) (event MessageEventType.created) empty).1
persisted_effect_example =
    persisted_effect (env 1) (event MessageEventType.created) empty decision true first_lem
