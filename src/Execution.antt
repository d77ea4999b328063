-- ===== src/Execution.antt =====
-- The execution of an inbound message: `process_inbound_message_job` of
-- backend/src/kuuna_backend/jobs/ingest.py over the tables of the messages, the bindings, the builds and
-- the runs. During a job no other session writes them. The logger is left out.
pub mod Candidates
pub mod Commands
pub mod Prompts
pub mod Remote
pub mod Reply
pub mod Effect
pub mod Answered
mod Tests
use kuuna_support_agents.Common.{
  ℕ, ◌≡◌, Bool, true, false, ◌&&◌, Option, none, some, List, [], ◌∷◌, ◌++◌, Text, codes, strip,
  is_empty, text_eq, find?, length, if◌then◌else◌, leb, ◌==◌, Result, ok, err,
}
use kuuna_support_agents.Common.Json.{
  ℤ, pos, negsuc, Json, Fields, null, arr, obj, field, end, get, items,
}
use kuuna_support_agents.Common.Json
use kuuna_support_agents.Audit.{AuditEvent}
use kuuna_support_agents.Messages.{Message, MessageVersion}
use kuuna_support_agents.Messages
use kuuna_support_agents.Bindings.{
  GroupBinding, AgentInstance, TemplateVersion, has_agent_id, has_version, is_stopped,
}
use kuuna_support_agents.Bindings
use kuuna_support_agents.Runtime.{
  TemplateBuild, ResolvedRuntimeTarget, RuntimeResolutionError, resolve_runtime_target,
}
use kuuna_support_agents.Outbound.{
  OutboundIntent, Marked, missing, raised, marked, Report, create_outbound_intent,
  mark_outbound_intent_failed,
}
use kuuna_support_agents.Execution.Remote.{text_json, texts, dict_json}
use kuuna_support_agents.Execution.Reply.{
  Env, RuntimeRun, ReplyInput, AgentReply, Generated, generate_agent_reply, id_json,
}

pub record Store : Type 0 where
  pub messages : Messages.Store
  pub bindings : Bindings.Store
  pub builds : List TemplateBuild
  pub runs : List RuntimeRun
  pub audit : List AuditEvent

pub data Ended : Type 0 where
  done failed : Ended

abbrev pub is_message : ℕ → Text → Message → Bool
is_message i group m = m.id == i && text_eq m.provider_group_id group

abbrev pub is_latest : Message → MessageVersion → Bool
is_latest m v = v.message_id == m.id && v.version_no == m.latest_version_no

abbrev text_or_empty : Option Text → Text
text_or_empty none = []
text_or_empty (some t) = t

-- `_extract_user_text`
pub extract_user_text : Option MessageVersion → Text
extract_user_text none = []
extract_user_text (some v) = if v.is_deleted then [] else strip (text_or_empty v.text_content)

abbrev pub latest_version : Message → Store → Option MessageVersion
latest_version m db = find? (is_latest m) db.messages.message_versions

-- `trace_id or str(uuid4())`
abbrev trace_or_new : Env → Option Text → Text
trace_or_new e none = e.show e.trace_uuid
trace_or_new e (some []) = e.show e.trace_uuid
trace_or_new e (some (c ∷ t)) = c ∷ t

abbrev non_empty_text : Option Json → Json
non_empty_text (some (Json.str (c ∷ t))) = Json.str (c ∷ t)
non_empty_text _ = null

abbrev run_id_of : Option Fields → Json
run_id_of none = null
run_id_of (some d) = non_empty_text (get "runtime_run_id" d)

abbrev reply_metadata : Env → ReplyInput → AgentInstance → AgentReply → Fields
reply_metadata e i a r = field "agent_instance_id" (Json.str (e.show a.id)) (
    field "binding_id" (Json.str (e.show i.binding_id)) (
      field "template_version_id" (Json.str (e.show i.template_version.id)) (
        field "template_build_id" (id_json e i.template_build_id) (
          field "image_ref" (Json.str i.image_ref) (
            field "runtime_run_id" (run_id_of r.runtime_execution) (
              field "model_path" (texts r.model_path) (
                field "retrieval_refs" (arr (items r.retrieval_refs)) (
                  field "allowed_tools" (texts r.allowed_tools)
                    (field "runtime_execution" (dict_json r.runtime_execution) end)))))))))

-- The payload of the intent.
abbrev pub reply_payload : Env → Message → ReplyInput → AgentInstance → AgentReply → Fields
reply_payload e m i a r = field "trace_id" (Json.str (trace_or_new e i.trace_id)) (
    field "provider_group_id" (Json.str i.provider_group_id) (
      field "reply_to_provider_message_id" (Json.str m.provider_message_id)
        (field "text" (Json.str r.text) (field "metadata" (obj (reply_metadata e i a r)) end))))

-- The error of a run is a column of 1024 characters and its duration one of 32 bits; PostgreSQL refuses
-- what does not fit.
abbrev fits : Option Text → Bool
fits none = true
fits (some t) = leb (length t) 1024

abbrev is_int32 : Option ℤ → Bool
is_int32 none = true
is_int32 (some (pos n)) = leb n 2147483647
is_int32 (some (negsuc n)) = leb n 2147483647

abbrev pub accepts : Option (RuntimeRun × AuditEvent) → Bool
accepts none = true
accepts (some (run, event)) = fits run.error && is_int32 run.duration_ms

abbrev pub add_run : Option (RuntimeRun × AuditEvent) → Store → Store
add_run none db = db
add_run (some (run, event)) db = record db {
  runs = db.runs ++ run ∷ [];
  audit = db.audit ++ event ∷ [];
}

abbrev pub put_intents : List OutboundIntent → Store → Store
put_intents intents db = record db { bindings = (record db.bindings { intents = intents }) }

abbrev pub add_job : ℕ → Store → Store
add_job i db = record db {
  bindings = (record db.bindings { dispatch_jobs = db.bindings.dispatch_jobs ++ i ∷ [] });
}

abbrev pub enqueue_report : Env → Text → Report
enqueue_report e message = record {
  error_code = some (codes "inbound_execution_dispatch_enqueue_failed");
  error_message = some message;
  provider_message_id = none;
  response_payload = none;
  occurred_at = e.now;
  retry_in_seconds = none;
}

abbrev after_mark : Marked × List OutboundIntent → Store → Ended × Store
after_mark (raised, intents) db = (failed, db)
after_mark (_, intents) db = (done, put_intents intents db)

-- `enqueue_outbound_dispatch` and the handler of its exception.
pub enqueue : Env → ℕ → Option Text → Store → Ended × Store
enqueue e i none db = (done, add_job i db)
enqueue e i (some message) db =
    after_mark (mark_outbound_intent_failed (enqueue_report e message) i db.bindings.intents) db

abbrev after_create :
    Env → Option (RuntimeRun × AuditEvent) → Marked × List OutboundIntent → Store → Ended × Store
after_create e run (marked o, intents) db =
    enqueue e o.outbound_intent_id e.queue_error (put_intents intents (add_run run db))
after_create e run _ db = (failed, db)

-- The commit of `create_outbound_intent`, which stores the run and its event too.
pub commit_reply : Env → Option (RuntimeRun × AuditEvent) → Text → Fields → Store → Ended × Store
unfolding enqueue
commit_reply e run group payload db =
    if accepts run
    then after_create e run
        (create_outbound_intent e.show e.now group payload e.intent_id db.bindings.intents) db
    else (failed, db)

abbrev with_reply :
    Env → Message → ReplyInput → AgentInstance → Option Generated → Store → Ended × Store
with_reply e m i a none db = (failed, db)
with_reply e m i a (some g) db =
    commit_reply e g.run i.provider_group_id (reply_payload e m i a g.reply) db

abbrev pub input_of :
    Message
    → Option Text
    → ResolvedRuntimeTarget
    → GroupBinding
    → TemplateVersion
    → (image user_text : Text) → ReplyInput
input_of m trace t b v image user_text = record {
  provider_group_id = m.provider_group_id;
  user_text = user_text;
  template_version = v;
  trace_id = trace;
  image_ref = image;
  message_id = m.id;
  binding_id = b.id;
  template_build_id = t.template_build_id;
}

abbrev pub answer :
    Env
    → Message
    → Option Text
    → ResolvedRuntimeTarget
    → GroupBinding
    → TemplateVersion
    → AgentInstance
    → Option Text
    → Store
    → Ended × Store
answer e m trace t b v a (some (c ∷ image)) db =
    let i = input_of m trace t b v (c ∷ image) (extract_user_text (latest_version m db)) in
    with_reply e m i a (generate_agent_reply e i) db
answer e m trace t b v a _ db = (done, db)

abbrev unless_stopped :
    Env
    → Message
    → Option Text
    → ResolvedRuntimeTarget
    → GroupBinding
    → TemplateVersion
    → Option AgentInstance
    → Store
    → Ended × Store
unless_stopped e m trace t b v none db = (done, db)
unless_stopped e m trace t b v (some a) db =
    if is_stopped a.status then (done, db) else answer e m trace t b v a t.image_ref db

abbrev with_rows :
    Env
    → Message
    → Option Text
    → ResolvedRuntimeTarget
    → Option GroupBinding
    → Option TemplateVersion
    → Option AgentInstance
    → Store
    → Ended × Store
with_rows e m trace t (some b) (some v) a db = unless_stopped e m trace t b v a db
with_rows e m trace t _ _ a db = (done, db)

abbrev pub agent_of : Option ℕ → Store → Option AgentInstance
agent_of none db = none
agent_of (some i) db = find? (has_agent_id i) db.bindings.agents

abbrev with_target :
    Env
    → Message
    → Option Text
    → Result RuntimeResolutionError ResolvedRuntimeTarget
    → Store
    → Ended × Store
with_target e m trace (err x) db = (done, db)
with_target e m trace (ok t) db =
    with_rows e m trace t (find? (Bindings.has_id t.binding_id) db.bindings.bindings)
      (find? (has_version t.template_version_id) db.bindings.template_versions)
      (agent_of t.agent_instance_id db) db

abbrev with_message : Env → (group : Text) → Option Text → Option Message → Store → Ended × Store
with_message e group trace none db = (done, db)
with_message e group trace (some m) db =
    with_target e m trace (resolve_runtime_target group true db.builds db.bindings) db

abbrev with_uuid : Env → (group : Text) → Option Text → Option ℕ → Store → Ended × Store
with_uuid e group trace none db = (done, db)
with_uuid e group trace (some i) db =
    with_message e group trace (find? (is_message i group) db.messages.messages) db

-- `process_inbound_message_job`
pub process_inbound_message_job :
    Env → (message_id provider_group_id : Text) → (trace_id : Option Text) → Store → Ended × Store
unfolding commit_reply extract_user_text
process_inbound_message_job e message_id group trace db =
    with_uuid e group trace (e.parse_uuid message_id) db
