-- ===== src/Agent/Tests.antt =====
-- Runs of the agent on small inputs.
use kuuna_support_agents.Common.{
  ◌*◌, ◌≤◌, ◌≡◌, refl, ◌↔◌, true, false, Option, none, some, [], ◌∷◌, Text, String, codes, strip,
  all, contains, count, text_eq, has_infix, length, suc, map, str_eq, if◌then◌else◌, ok,
}
use kuuna_support_agents.Common.Json.{Json, Fields, bool, str, arr, obj, nil, cons, field, end, get}
use kuuna_support_agents.Agent.{Env, RunnerInput, ToolInvocation, exited}
use kuuna_support_agents.Agent.Failover.{build_failover_plan, failover_plan_bounds}
use kuuna_support_agents.Agent.Prompt.{or_text, build_prompt}
use kuuna_support_agents.Agent.Tools.{is_confined, execute_tool_call}
use kuuna_support_agents.Agent.Provider.{max_tool_rounds, run_openai_agent, chat_completion}
use kuuna_support_agents.Agent.Container.{run_template_client_image, is_safe_image_ref, last_line}
use kuuna_support_agents.Agent.Container.Success.{
  Answers, Reports, completed_of, container_success_iff,
}
use kuuna_support_agents.Agent.Run.{run_agent, max_hops}
use kuuna_support_agents.Agent.Run.Attempts.{Follows, IsConsistent, run_agent_attempts}
use kuuna_support_agents.Agent.Run.Confined.{run_agent_tools, run_agent_posts}

abbrev payload : Fields
payload = field "success" (bool true) (field "response_text" (str (codes " Hello ")) end)

-- A provider that asks for `echo` in every message.
abbrev asking : Json
asking =
    let call = obj (
      field "id" (str (codes "c1"))
        (field "function" (obj (field "name" (str (codes "echo")) end)) end)) in
    let message = obj (field "tool_calls" (arr (cons call nil)) end) in
    obj (field "choices" (arr (cons (obj (field "message" message end)) nil)) end)

abbrev environment : (key : Option Text) → Env
environment key = record {
  post = λ body. ok asking;
  getenv = λ name. if str_eq name "OPENAI_API_KEY" then key else none;
  run_container = λ command stdin. exited 0 (codes "starting\n{}\n") [];
  uuid_hex = codes "0011aabb";
  json_loads = λ t. if text_eq t (codes "{}") then some (obj payload) else none;
  json_error = codes "Expecting value";
  json_dumps = λ j. codes "{}";
  str = λ j. codes "{}";
  repr = λ t. t;
  show = λ n. codes "1";
  show_seconds = λ n. codes "2.00";
  upper = λ t. t;
  lower = λ t. t;
  type_error = codes "error";
  overruns = λ call t. false;
}

abbrev calling : (name : String) → ToolInvocation
calling name = record {
  name = codes name;
  arguments = field "text" (str (codes "hi")) end;
  timeout = none;
}

abbrev request : Option Text → RunnerInput
request image = record {
  trace_id = none;
  system_prompt = none;
  user_prompt = codes "Hi";
  context = end;
  model_path = codes "down-1" ∷ codes "good" ∷ codes "down-1" ∷ codes "last" ∷ [];
  allowed_tools = codes "echo" ∷ [];
  tool_requests = calling "echo" ∷ calling "uppercase" ∷ [];
  image_ref = image;
}

abbrev image : Option Text
image = some (codes "registry/agent:1")

failover_plan_bounds_example :
    (1 ≤ length (build_failover_plan (request none).model_path max_hops))
    × (length (build_failover_plan (request none).model_path max_hops) ≤ suc max_hops)
    × (count (text_eq (codes "good")) (build_failover_plan (request none).model_path max_hops) ≤ 1)
failover_plan_bounds_example =
    failover_plan_bounds (request none).model_path max_hops (codes "good")

run_agent_attempts_example :
    Follows
      (environment none)
      (request none)
      (build_prompt (environment none) none (codes "Hi") end)
      (build_failover_plan (request none).model_path max_hops)
      (run_agent (environment none) (request none)).1.attempts
      (run_agent (environment none) (request none)).1.model_used
      (run_agent (environment none) (request none)).1.response_text
    × IsConsistent (run_agent (environment none) (request none)).1
unfolding strip
run_agent_attempts_example = run_agent_attempts (environment none) (request none) refl

-- The second model answers.
good_is_used : (run_agent (environment none) (request none)).1.model_used ≡ some (codes "good")
unfolding run_agent build_failover_plan strip contains text_eq has_infix
good_is_used = refl

run_agent_tools_example :
    all
      (is_confined (request none).allowed_tools)
      (run_agent (environment none) (request none)).1.tool_results
    ≡ true
run_agent_tools_example = run_agent_tools (environment none) (request none)

-- Only the first of the two tools that the caller asks for runs.
second_is_refused :
    map (λ t. t.ok) (run_agent (environment none) (request none)).1.tool_results ≡ true ∷ false ∷ []
unfolding run_agent build_failover_plan strip contains text_eq has_infix execute_tool_call
second_is_refused = refl

run_agent_posts_example :
    (run_agent (environment (some (codes "key"))) (request none)).0 ≤ max_tool_rounds * suc max_hops
run_agent_posts_example = run_agent_posts (environment (some (codes "key"))) (request none)

-- Three models that ask for a tool in every round.
all_posts : (run_agent (environment (some (codes "key"))) (request none)).0 ≡ 12
unfolding run_agent build_failover_plan strip contains text_eq run_openai_agent chat_completion get
all_posts = refl

container_success_iff_example :
    Answers
      (run_template_client_image
        (environment none)
        (request image)
        (build_prompt (environment none) none (codes "Hi") end))
      (codes "Hello")
    ↔ ((is_safe_image_ref (strip (or_text image [])) ≡ true)
        × Reports
            (environment none)
            (completed_of
              (environment none)
              (request image)
              (build_prompt (environment none) none (codes "Hi") end))
            (codes "Hello"))
container_success_iff_example =
    container_success_iff (environment none) (request image)
      (build_prompt (environment none) none (codes "Hi") end) (codes "Hello")

hello_is_answered :
    (run_template_client_image
      (environment none)
      (request image)
      (build_prompt (environment none) none (codes "Hi") end)).response_text
    ≡ some (codes "Hello")
unfolding run_template_client_image strip text_eq last_line get
hello_is_answered = refl
