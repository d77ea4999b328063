-- ===== src/Bindings.antt =====
-- Bindings of groups to template versions: backend/src/kuuna_backend/domain/bindings/service.py. A
-- creation reads a snapshot `seen` of the tables and writes the tables as they are `now`, when another
-- session may have committed; the constraints are checked at the write.
pub mod ModelPath
pub mod Activation
pub mod Coherence
mod Tests
use kuuna_support_agents.Common.{
  ℕ, ◌≡◌, Bool, true, false, ◌&&◌, ◌||◌, Option, none, some, List, [], ◌∷◌, ◌++◌, Text, codes,
  text_eq, find?, any, update_where, Result, ok, err, if◌then◌else◌, ◌==◌,
}
use kuuna_support_agents.Common.Json.{Json, Items, Fields, str, arr, obj, nil, cons, field, end}
use kuuna_support_agents.Models.{TemplateVersionStatus, is_published}
use kuuna_support_agents.Outbound.{
  OutboundIntent, Marked, missing, raised, marked, create_outbound_intent,
}
use kuuna_support_agents.Bindings.ModelPath.{build_model_path}

pub data BindingStatus : Type 0 where
  draft provisioning active inactive failed : BindingStatus

abbrev pub is_active : BindingStatus → Bool
is_active BindingStatus.active = true
is_active _ = false

abbrev pub is_inactive : BindingStatus → Bool
is_inactive BindingStatus.inactive = true
is_inactive _ = false

pub data RuntimeStatus : Type 0 where
  provisioning healthy degraded stopped : RuntimeStatus

abbrev pub is_healthy : RuntimeStatus → Bool
is_healthy RuntimeStatus.healthy = true
is_healthy _ = false

abbrev pub is_stopped : RuntimeStatus → Bool
is_stopped RuntimeStatus.stopped = true
is_stopped _ = false

pub record TemplateVersion : Type 0 where
  pub id : ℕ
  pub status : TemplateVersionStatus
  pub model_config : Json
  pub tools_config : Json
  pub system_prompt : Option Text

pub record GroupBinding : Type 0 where
  pub id : ℕ
  pub provider_group_id : Text
  pub template_version_id : ℕ
  pub status : BindingStatus

pub record AgentInstance : Type 0 where
  pub id : ℕ
  pub group_binding_id : ℕ
  pub status : RuntimeStatus

pub record Store : Type 0 where
  pub template_versions : List TemplateVersion
  pub bindings : List GroupBinding
  pub agents : List AgentInstance
  pub intents : List OutboundIntent
  -- The intents whose dispatch the queue has accepted.
  pub dispatch_jobs : List ℕ

-- The ids that are drawn, the clock, and whether the queue accepts a job.
pub record Env : Type 0 where
  pub binding_id : ℕ
  pub agent_instance_id : ℕ
  pub trace_id : ℕ
  pub outbound_intent_id : ℕ
  pub show : ℕ → Text
  pub now : Text
  pub queue_accepts : Bool

pub data BindingError : Type 0 where
  binding_not_found version_not_found not_published conflict integrity_error : BindingError

abbrev pub has_id : ℕ → GroupBinding → Bool
has_id i b = b.id == i

abbrev pub of_binding : ℕ → AgentInstance → Bool
of_binding i a = a.group_binding_id == i

abbrev pub has_agent_id : ℕ → AgentInstance → Bool
has_agent_id i a = a.id == i

abbrev pub is_active_of : Text → GroupBinding → Bool
is_active_of g b = text_eq b.provider_group_id g && is_active b.status

abbrev pub has_version : ℕ → TemplateVersion → Bool
has_version i v = v.id == i

pub record BindingView : Type 0 where
  pub binding : GroupBinding
  pub agent_instance : Option AgentInstance

-- `get_binding`
pub get_binding : ℕ → Store → Result BindingError BindingView
get_binding i db = elim (find? (has_id i) db.bindings) [
  | none ↦ err binding_not_found
  | some b ↦ ok (record { binding = b; agent_instance = find? (of_binding i) db.agents })
]

abbrev pub set_runtime : RuntimeStatus → AgentInstance → AgentInstance
set_runtime s a = record a { status = s }

abbrev pub set_status : BindingStatus → GroupBinding → GroupBinding
set_status s b = record b { status = s }

-- `_upsert_agent_instance`, and the status that the caller gives the row.
abbrev pub upsert_agent_instance :
    RuntimeStatus → (agent binding : ℕ) → List AgentInstance → List AgentInstance
upsert_agent_instance s agent i agents =
    if any (of_binding i) agents
    then update_where (of_binding i) (set_runtime s) agents
    else agents ++ (record { id = agent; group_binding_id = i; status = s }) ∷ []

abbrev strings : List Text → Items
strings [] = nil
strings (t ∷ ts) = cons (str t) (strings ts)

abbrev activation_text : Text
activation_text =
    codes
      "Hallo! Ich bin jetzt als automatisierter Support-Agent für diese Gruppe aktiviert und unterstütze bei Bedarf."

abbrev agent_id : ℕ → Option AgentInstance → ℕ
agent_id i none = i
agent_id i (some a) = a.id

activation_payload : Env → Text → TemplateVersion → Store → Fields
activation_payload e group v db = field "trace_id" (str (e.show e.trace_id)) (
    field "outbound_intent_id" (str (e.show e.outbound_intent_id)) (
      field "provider_group_id" (str group) (
        field "text" (str activation_text) (
          field "metadata"
            (obj (
              field "agent_instance_id"
                (str (
                  e.show
                    (agent_id e.agent_instance_id (find? (of_binding e.binding_id) db.agents))))
                (field "model_path" (arr (strings (build_model_path v.model_config))) end)))
            end))))

abbrev new_binding : Env → Text → ℕ → GroupBinding
new_binding e group v = record {
  id = e.binding_id;
  provider_group_id = group;
  template_version_id = v;
  status = BindingStatus.active;
}

-- `_enqueue_activation_dispatch_job`: a refusal is logged and passed over.
abbrev enqueue_activation_dispatch_job : Env → ℕ → List ℕ → List ℕ
enqueue_activation_dispatch_job e i jobs = if e.queue_accepts then jobs ++ i ∷ [] else jobs

-- The commit inside `create_outbound_intent`, the job after it, and what is returned.
commit_binding :
    Env → Text → ℕ → Marked × List OutboundIntent → Store → Result BindingError BindingView × Store
unfolding get_binding
commit_binding e group v (missing, intents) now = (err integrity_error, now)
commit_binding e group v (raised, intents) now = (err integrity_error, now)
commit_binding e group v (marked o, intents) now =
    let after : Store = record now {
      bindings = now.bindings ++ new_binding e group v ∷ [];
      agents =
          upsert_agent_instance RuntimeStatus.healthy e.agent_instance_id e.binding_id now.agents;
      intents = intents;
      dispatch_jobs = enqueue_activation_dispatch_job e o.outbound_intent_id now.dispatch_jobs;
    } in
    (get_binding e.binding_id after, after)

-- The write: the two primary keys, and the partial unique index, by which a group has one active
-- binding at most.
write_binding : Env → Text → TemplateVersion → Store → Result BindingError BindingView × Store
unfolding commit_binding activation_payload
write_binding e group v now =
    if any (has_id e.binding_id) now.bindings || any (has_agent_id e.agent_instance_id) now.agents
    then (err integrity_error, now)
    else (if any (is_active_of group) now.bindings
        then (err conflict, now)
        else commit_binding e group v.id
            (create_outbound_intent e.show e.now group (activation_payload e group v now)
              e.outbound_intent_id now.intents)
            now)

-- `create_binding`
pub create_binding :
    Env
    → (provider_group_id : Text) → (template_version_id : ℕ) → (seen now : Store)
    → Result BindingError BindingView × Store
unfolding write_binding
create_binding e group i seen now = elim (find? (has_version i) seen.template_versions) [
  | none ↦ (err version_not_found, now)
  | some v ↦
      if is_published v.status
      then (if any (is_active_of group) seen.bindings
          then (err conflict, now)
          else write_binding e group v now)
      else (err not_published, now)
]

unbound : ℕ → Store → Store
unbound i db = record db {
  bindings = update_where (has_id i) (set_status BindingStatus.inactive) db.bindings;
  agents = update_where (of_binding i) (set_runtime RuntimeStatus.stopped) db.agents;
}

-- `unbind`
pub unbind : ℕ → Store → Result BindingError BindingView × Store
unfolding get_binding unbound
unbind i db = elim (find? (has_id i) db.bindings) [
  | none ↦ (err binding_not_found, db)
  | some b ↦ (get_binding i (unbound i db), unbound i db)
]
