-- ===== src/Audit.antt =====
-- The audit trail: backend/src/kuuna_backend/domain/audit/service.py. The time and the key of an event
-- are set by the database and are left out.
use kuuna_support_agents.Common.{ℕ, Option, List, [], ◌∷◌, ◌++◌, Text}
use kuuna_support_agents.Common.Json.{Fields}

pub record AuditEvent : Type 0 where
  pub actor_user_id : Option ℕ
  pub event_type : Text
  pub entity_type : Text
  pub entity_id : Text
  pub payload : Fields

-- `append_audit_event`, of which the caller's commit stores the event.
abbrev pub append_audit_event :
    (actor_user_id : Option ℕ) (event_type entity_type entity_id : Text)
    → Fields
    → List AuditEvent
    → List AuditEvent
append_audit_event actor_user_id event_type entity_type entity_id payload events =
    events
    ++ (record {
      actor_user_id = actor_user_id;
      event_type = event_type;
      entity_type = entity_type;
      entity_id = entity_id;
      payload = payload;
    })
      ∷ []
