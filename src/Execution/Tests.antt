-- ===== src/Execution/Tests.antt =====
-- Executions of a message on small inputs.
use kuuna_support_agents.Common.{
  ℕ, zero, suc, ◌≡◌, refl, ◌↔◌, true, false, none, some, List, [], ◌∷◌, Text, codes, strip, text_eq,
  starts_with,
}
use kuuna_support_agents.Common.Json.{null, bool, str, obj, field, end, get}
use kuuna_support_agents.Models.{TemplateVersionStatus}
use kuuna_support_agents.Messages.{Message, MessageVersion, MessageEventType}
use kuuna_support_agents.Bindings.{
  BindingStatus, RuntimeStatus, GroupBinding, AgentInstance, TemplateVersion,
}
use kuuna_support_agents.Runtime.{
  TemplateBuild, TemplateBuildStatus, ResolvedRuntimeTarget, resolve_runtime_target,
}
use kuuna_support_agents.Execution.Prompts.{build_retrieval_refs}
use kuuna_support_agents.Execution.Remote.{
  RuntimeResult, success_of, run_via_runtime_agent, Posted, refused, answered,
}
use kuuna_support_agents.Execution.Reply.{
  Env, integration_error, ReplyInput, RuntimeRun, Generated, generate_agent_reply, started_run,
  finished_run, run_event, reply_of, execution_with_id, request_of,
}
use kuuna_support_agents.Execution.Commands.{maybe_execute_tool_command}
use kuuna_support_agents.Templates.Tools.{extract_allowed_tools}
use kuuna_support_agents.Execution.Candidates.{extract_model_candidates}
use kuuna_support_agents.Execution.{
  Store, failed, process_inbound_message_job, extract_user_text, input_of,
}
use kuuna_support_agents.Execution.Answered.{IsAnswerable, HasIntent, execution_job_answers}

abbrev group : Text
group = codes "g1"

-- The answer of the runtime agent is given; the model service fails.
abbrev environment : Posted → Env
environment posted = record {
  show = λ n. codes "id";
  show_number = λ n. codes "1";
  parse_uuid = λ t. some 1;
  upper = λ t. t;
  lower = λ t. t;
  to_str = λ j. codes "{}";
  now = codes "12:00";
  run_id = 50;
  intent_id = 60;
  trace_uuid = 70;
  retrieve = λ g q. some [];
  post = λ body. posted;
  openai_configured = true;
  chat = λ m s u. integration_error;
  queue_error = none;
}

abbrev message : Message
message = record {
  id = 1;
  provider_group_id = group;
  provider_message_id = codes "p1";
  sender_provider_user_id = some (codes "u1");
  latest_version_no = 1;
}

abbrev message_text : Text → MessageVersion
message_text t = record {
  message_id = 1;
  version_no = 1;
  event_type = MessageEventType.created;
  is_deleted = false;
  text_content = some t;
  raw_event = end;
  occurred_at = 3;
}

abbrev version : TemplateVersion
version = record {
  id = 20;
  status = TemplateVersionStatus.published;
  model_config = null;
  tools_config = null;
  system_prompt = none;
}

abbrev binding : GroupBinding
binding = record {
  id = 30;
  provider_group_id = group;
  template_version_id = 20;
  status = BindingStatus.active;
}

abbrev agent : AgentInstance
agent = record { id = 40; group_binding_id = 30; status = RuntimeStatus.healthy }

abbrev build : TemplateBuild
build = record {
  id = 90;
  template_version_id = 20;
  status = TemplateBuildStatus.succeeded;
  image_ref = some (codes "kuuna/agent");
  created_at = 4;
}

abbrev store : Text → Store
store t = record {
  messages = (record {
    messages = message ∷ [];
    message_versions = message_text t ∷ [];
    media_assets = [];
    media_jobs = [];
    execution_jobs = [];
  });
  bindings = (record {
    template_versions = version ∷ [];
    bindings = binding ∷ [];
    agents = agent ∷ [];
    intents = [];
    dispatch_jobs = [];
  });
  builds = build ∷ [];
  runs = [];
  audit = [];
}

abbrev target : ResolvedRuntimeTarget
target = record {
  provider_group_id = group;
  binding_id = 30;
  agent_instance_id = some 40;
  template_version_id = 20;
  template_build_id = some 90;
  image_ref = some (codes "kuuna/agent");
}

abbrev hello : Posted
hello =
    answered (obj (field "success" (bool true) (field "response_text" (str (codes " Hallo ")) end)))

abbrev repeat : ℕ → Text
repeat zero = []
repeat (suc n) = 97 ∷ repeat n

abbrev input : ReplyInput
input = input_of message none target binding version (codes "kuuna/agent") (codes "Hi")

abbrev models : List Text
models = codes "gpt-4.1-mini" ∷ []

abbrev result : RuntimeResult
result = success_of (request_of (environment hello) input [] models []) (codes "Hallo") models none

abbrev run : RuntimeRun
run = finished_run (environment hello) (started_run (environment hello) input models []) result

-- The reply of the runtime agent.
abbrev generated : Generated
generated =
    reply_of (codes "Hallo") models (build_retrieval_refs (environment hello).show []) []
      (some (execution_with_id (environment hello) run none))
      (some (run, run_event (environment hello) run result))

hello_is_generated :
    generate_agent_reply (environment hello) (
      input_of message none target binding version
        (codes "kuuna/agent")
        (extract_user_text (some (message_text (codes "Hi")))))
    ≡ some generated
unfolding generate_agent_reply extract_user_text strip extract_model_candidates
    extract_allowed_tools maybe_execute_tool_command run_via_runtime_agent get starts_with
hello_is_generated = refl

execution_job_answers_example :
    HasIntent
      (environment hello).intent_id
      (process_inbound_message_job (environment hello) (codes "1") group none (store (codes "Hi")))
    ↔ ((i : ℕ) × ((environment hello).parse_uuid (codes "1") ≡ some i)
        × IsAnswerable (environment hello) i group none (store (codes "Hi")))
execution_job_answers_example =
    execution_job_answers (environment hello) (codes "1") group none (store (codes "Hi")) refl

-- Both sides of it hold there.
hello-IsAnswerable : IsAnswerable (environment hello) 1 group none (store (codes "Hi"))
unfolding text_eq resolve_runtime_target extract_user_text strip finished_run
hello-IsAnswerable = (
  message,
  target,
  binding,
  version,
  agent,
  codes "kuuna/agent",
  generated,
  refl,
  refl,
  refl,
  refl,
  refl,
  refl,
  refl,
  refl,
  hello_is_generated,
  refl,
)

-- An error of 1025 characters does not fit the column of the run: the job raises, and neither the
-- fallback nor the run is stored.
long_error_raises :
    process_inbound_message_job
      (environment (refused (repeat 1025)))
      (codes "1")
      group
      none
      (store (codes "Hi"))
    ≡ (failed, store (codes "Hi"))
unfolding process_inbound_message_job generate_agent_reply text_eq resolve_runtime_target strip
    extract_model_candidates extract_allowed_tools maybe_execute_tool_command run_via_runtime_agent
    get starts_with
long_error_raises = refl
