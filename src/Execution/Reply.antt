-- ===== src/Execution/Reply.antt =====
-- The reply to a message: `_generate_agent_reply` of backend/src/kuuna_backend/jobs/ingest.py, with the
-- row of the run and its event, which the job commits.
pub mod Answers
use kuuna_support_agents.Common.{
  ℕ, zero, suc, ◌≡◌, refl, Bool, true, false, Option, none, some, List, [], ◌∷◌, ◌++◌, Text, codes,
  strip, is_empty, take, if◌then◌else◌,
}
use kuuna_support_agents.Common.Json.{
  ℤ, pos, Json, Items, Fields, null, bool, num, str, arr, obj, field, end, get, update, truthy,
}
use kuuna_support_agents.Common.Json
use kuuna_support_agents.Bindings.{TemplateVersion}
use kuuna_support_agents.Templates.Tools.{extract_allowed_tools}
use kuuna_support_agents.Audit.{AuditEvent}
use kuuna_support_agents.Execution.Candidates.{extract_model_candidates}
use kuuna_support_agents.Execution.Commands.{maybe_execute_tool_command}
use kuuna_support_agents.Execution.Prompts.{
  RetrievalHit, inbound_confirmation_text, build_system_prompt, build_user_prompt,
  build_retrieval_refs, build_fallback_reply,
}
use kuuna_support_agents.Execution.Remote.{
  Posted, RuntimeResult, Request, text_json, texts, run_via_runtime_agent,
}

pub data RuntimeRunStatus : Type 0 where
  started succeeded failed timeout : RuntimeRunStatus

pub record RuntimeRun : Type 0 where
  pub id : ℕ
  pub provider_group_id : Text
  pub message_id : ℕ
  pub binding_id : ℕ
  pub template_version_id : ℕ
  pub template_build_id : Option ℕ
  pub image_ref : Text
  pub status : RuntimeRunStatus
  pub finished_at : Option Text
  pub duration_ms : Option ℤ
  pub error : Option Text
  pub execution : Fields

-- How `create_chat_completion` ended: a text, an `OpenAIIntegrationError`, or another exception.
pub data Completion : Type 0 where
  completed : Text → Completion
  integration_error crashed : Completion

-- What the job uses of Python, of the services around it and of the settings.
pub record Env : Type 0 where
  pub show : ℕ → Text
  pub show_number : ℕ → Text
  pub parse_uuid : Text → Option ℕ
  pub upper : Text → Text
  pub lower : Text → Text
  pub to_str : Json → Text
  pub now : Text
  -- The ids that are drawn.
  pub run_id : ℕ
  pub intent_id : ℕ
  pub trace_uuid : ℕ
  -- `retrieve_context` of a group and a query, with `none` for an exception.
  pub retrieve : Text → Text → Option (List RetrievalHit)
  pub post : Fields → Posted
  pub openai_configured : Bool
  pub chat : (model system_prompt user_prompt : Text) → Completion
  -- The text of the queue's exception, if it does not take a job.
  pub queue_error : Option Text

pub record ReplyInput : Type 0 where
  pub provider_group_id : Text
  pub user_text : Text
  pub template_version : TemplateVersion
  pub trace_id : Option Text
  pub image_ref : Text
  pub message_id : ℕ
  pub binding_id : ℕ
  pub template_build_id : Option ℕ

pub record AgentReply : Type 0 where
  pub text : Text
  pub model_path : List Text
  pub retrieval_refs : List Json
  pub allowed_tools : List Text
  pub runtime_execution : Option Fields

-- A reply, and the row and the event that its session holds.
pub record Generated : Type 0 where
  pub reply : AgentReply
  pub run : Option (RuntimeRun × AuditEvent)

abbrev pub reply_of :
    Text
    → List Text
    → List Json
    → List Text
    → Option Fields
    → Option (RuntimeRun × AuditEvent)
    → Generated
reply_of text path refs allowed execution run = record {
  reply = (record {
    text = text;
    model_path = path;
    retrieval_refs = refs;
    allowed_tools = allowed;
    runtime_execution = execution;
  });
  run = run;
}

abbrev pub started_run : Env → ReplyInput → (models allowed : List Text) → RuntimeRun
started_run e i models allowed = record {
  id = e.run_id;
  provider_group_id = i.provider_group_id;
  message_id = i.message_id;
  binding_id = i.binding_id;
  template_version_id = i.template_version.id;
  template_build_id = i.template_build_id;
  image_ref = i.image_ref;
  status = RuntimeRunStatus.started;
  finished_at = none;
  duration_ms = none;
  error = none;
  execution = field "trace_id" (text_json i.trace_id) (
      field "requested"
        (obj (field "model_path" (texts models) (field "allowed_tools" (texts allowed) end))) end);
}

-- `isinstance(value, int)`, which holds of a Boolean too.
abbrev number_of : Option Json → Option ℤ
number_of (some (num n)) = some n
number_of (some (bool true)) = some (pos 1)
number_of (some (bool false)) = some (pos 0)
number_of _ = none

abbrev duration_of : Option Fields → Option ℤ
duration_of none = none
duration_of (some d) = number_of (get "duration_ms" d)

abbrev merged : Option Fields → Fields → Fields
merged none d = d
merged (some execution) d = update d execution

abbrev timed_out : Option Fields → Bool
timed_out none = false
timed_out (some d) = truthy (get "timed_out" d)

abbrev failed_status : Bool → RuntimeRunStatus
failed_status true = RuntimeRunStatus.timeout
failed_status false = RuntimeRunStatus.failed

-- The row once the runtime agent has answered.
unfoldable pub finished_run : Env → RuntimeRun → RuntimeResult → RuntimeRun
finished_run e run r = record run {
  status =
      (if r.success then RuntimeRunStatus.succeeded else failed_status (timed_out r.execution));
  finished_at = some e.now;
  duration_ms = duration_of r.execution;
  error = (if r.success then none else some r.error);
  execution = merged r.execution run.execution;
}

abbrev status_value : RuntimeRunStatus → Text
status_value RuntimeRunStatus.started = codes "started"
status_value RuntimeRunStatus.succeeded = codes "succeeded"
status_value RuntimeRunStatus.failed = codes "failed"
status_value RuntimeRunStatus.timeout = codes "timeout"

abbrev pub id_json : Env → Option ℕ → Json
id_json e none = null
id_json e (some i) = Json.str (e.show i)

abbrev number_json : Option ℤ → Json
number_json none = null
number_json (some n) = num n

-- The event `runtime.execution`.
abbrev pub run_event : Env → RuntimeRun → RuntimeResult → AuditEvent
run_event e run r = record {
  actor_user_id = none;
  event_type = codes "runtime.execution";
  entity_type = codes "message";
  entity_id = e.show run.message_id;
  payload = update r.audit_payload (
      field "runtime_run_id" (Json.str (e.show run.id)) (
        field "binding_id" (Json.str (e.show run.binding_id)) (
          field "template_version_id" (Json.str (e.show run.template_version_id)) (
            field "template_build_id" (id_json e run.template_build_id) (
              field "image_ref" (Json.str run.image_ref) (
                field "status" (Json.str (status_value run.status))
                  (field "duration_ms" (number_json run.duration_ms) end)))))));
}

abbrev pub execution_with_id : Env → RuntimeRun → Option Fields → Fields
execution_with_id e run none = field "runtime_run_id" (Json.str (e.show run.id)) end
execution_with_id e run (some d) = Json.put "runtime_run_id" (Json.str (e.show run.id)) d

abbrev pub after_chat :
    Completion
    → (attempted : List Text) → Option (Option (Text × List Text))
    → Option (Option (Text × List Text))
after_chat (completed t) attempted rest =
    if is_empty (strip t) then rest else some (some (strip t, attempted))
after_chat integration_error attempted rest = rest
after_chat crashed attempted rest = none

-- The loop over the models: an answer with the models attempted, no answer, or `none` for an exception.
pub try_models :
    Env
    → (system_prompt user_prompt : Text) → (attempted models : List Text)
    → Option (Option (Text × List Text))
try_models e system user attempted [] = some none
try_models e system user attempted (m ∷ ms) =
    let tried = attempted ++ m ∷ [] in
    let rest = try_models e system user tried ms in after_chat (e.chat m system user) tried rest

-- The models without the runtime agent, and then the fallback.
abbrev pub fallback :
    Env
    → ReplyInput
    → List RetrievalHit
    → (models allowed : List Text) → RuntimeRun × AuditEvent
    → Option (Option (Text × List Text))
    → Option Generated
fallback e i hits models allowed run none = none
fallback e i hits models allowed run (some (some (text, path))) =
    some (reply_of text path (build_retrieval_refs e.show hits) allowed none (some run))
fallback e i hits models allowed run (some none) = some (
    reply_of (build_fallback_reply e.show_number i.user_text hits) (take 1 models)
      (build_retrieval_refs e.show hits) allowed none (some run))

abbrev pub prompts : ReplyInput → List RetrievalHit → List Text → Text × Text
prompts i hits allowed = (
  build_system_prompt i.template_version.system_prompt allowed,
  build_user_prompt i.user_text hits,
)

-- What follows the call of the runtime agent.
pub after_remote :
    Env
    → ReplyInput
    → List RetrievalHit
    → (models allowed : List Text) → Option RuntimeResult
    → Option Generated
unfolding finished_run try_models
after_remote e i hits models allowed none = none
after_remote e i hits models allowed (some r) =
    let run = finished_run e (started_run e i models allowed) r in
    let (system, user) = prompts i hits allowed in
    if r.success
    then some (
        reply_of (strip r.response_text) r.model_path (build_retrieval_refs e.show hits) allowed
          (some (execution_with_id e run r.execution)) (some (run, run_event e run r)))
    else fallback e i hits models allowed (run, run_event e run r)
        (if e.openai_configured then try_models e system user [] models else some none)

abbrev pub request_of :
    Env → ReplyInput → List RetrievalHit → (models allowed : List Text) → Request
request_of e i hits models allowed = record {
  trace_id = i.trace_id;
  provider_group_id = i.provider_group_id;
  system_prompt = (prompts i hits allowed).0;
  user_prompt = (prompts i hits allowed).1;
  model_path = models;
  allowed_tools = allowed;
  retrieval_refs = build_retrieval_refs e.show hits;
  image_ref = i.image_ref;
}

abbrev pub without_command :
    Env
    → ReplyInput
    → List RetrievalHit
    → (models allowed : List Text) → Option Text
    → Option Generated
without_command e i hits models allowed (some text) =
    some (reply_of text [] (build_retrieval_refs e.show hits) allowed none none)
without_command e i hits models allowed none =
    if is_empty i.user_text
    then some (
        reply_of inbound_confirmation_text (take 1 models) (build_retrieval_refs e.show hits)
          allowed none none)
    else after_remote e i hits models allowed
        (run_via_runtime_agent e.post e.to_str (request_of e i hits models allowed))

abbrev pub with_hits : Env → ReplyInput → Option (List RetrievalHit) → Option Generated
with_hits e i none = none
with_hits e i (some hits) =
    let allowed = extract_allowed_tools e.lower i.template_version.tools_config in
    let models = extract_model_candidates e.lower i.template_version.model_config in
    without_command e i hits models allowed
      (maybe_execute_tool_command e.upper e.lower i.user_text allowed)

-- `_generate_agent_reply`, with `none` for an exception.
unfoldable pub generate_agent_reply : Env → ReplyInput → Option Generated
unfolding after_remote
generate_agent_reply e i =
    with_hits e i
      (if is_empty i.user_text then some [] else e.retrieve i.provider_group_id i.user_text)
