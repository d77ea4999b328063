-- ===== src/Agent/Run.antt =====
-- A run of the agent: `run_agent` and `_call_placeholder_model` of services/runtime-agent/src/runner.py.
pub mod Attempts
pub mod Confined
use kuuna_support_agents.Common.{
  ℕ, zero, suc, ◌+◌, ◌≡◌, Bool, true, false, not, Option, none, some, List, [], ◌∷◌, ◌++◌, Text,
  codes, strip, join, newline, is_empty, has_infix, any, map, Result, ok, err, if◌then◌else◌,
}
use kuuna_support_agents.Agent.{
  Env, RunnerInput, RuntimeAgentResult, ModelAttempt, ToolExecutionResult,
}
use kuuna_support_agents.Agent.Failover.{build_failover_plan}
use kuuna_support_agents.Agent.Prompt.{PromptAssembly, or_text, build_prompt}
use kuuna_support_agents.Agent.Tools.{execute_tool_calls}
use kuuna_support_agents.Agent.Provider.{Dialogue, run_openai_agent}
use kuuna_support_agents.Agent.Container.{run_template_client_image, variable}

-- `FAILURE_MARKERS`
abbrev failure_markers : List Text
failure_markers = codes "fail" ∷ codes "down" ∷ codes "error" ∷ codes "unavailable" ∷ []

abbrev attached : Option Text → List Text
attached none = []
attached (some t) = codes "Context: attached" ∷ []

-- `_call_placeholder_model`
pub call_placeholder_model : Env → Text → PromptAssembly → Result Text Text
call_placeholder_model e model p =
    if any (has_infix (e.lower model)) failure_markers
    then err (codes "placeholder model unavailable: " ++ model)
    else ok (
        join newline (
          (codes "[" ++ model ++ codes "] Processed request.")
          ∷ (codes "User: " ++ p.user_message)
          ∷ attached p.context_message))

abbrev pub placeholder_dialogue : Result Text Text → Dialogue
placeholder_dialogue (ok t) = record { posts = 0; answer = ok (t, []) }
placeholder_dialogue (err m) = record { posts = 0; answer = err m }

abbrev pub has_api_key : Env → Bool
has_api_key e = not (is_empty (variable e "OPENAI_API_KEY"))

-- One attempt of a model.
pub attempt : Env → RunnerInput → PromptAssembly → Text → Dialogue
unfolding call_placeholder_model
attempt e r p model =
    if has_api_key e
    then run_openai_agent e model p r.context r.allowed_tools
    else placeholder_dialogue (call_placeholder_model e model p)

-- The loop over the models: the attempts, the posts, and the answer of the model that succeeded.
pub record Tried : Type 0 where
  pub attempts : List ModelAttempt
  pub posts : ℕ
  pub used : Option (Text × Text × List ToolExecutionResult)

abbrev after_failure : Text → ℕ → Text → Tried → Tried
after_failure model posts message t = record {
  attempts = (record { model = model; success = false; error = some message }) ∷ t.attempts;
  posts = posts + t.posts;
  used = t.used;
}

abbrev pub after_attempt : Text → ℕ → Result Text (Text × List ToolExecutionResult) → Tried → Tried
after_attempt model posts (err message) rest = after_failure model posts message rest
after_attempt model posts (ok (text, results)) rest = record {
  attempts = (record { model = model; success = true; error = none }) ∷ [];
  posts = posts;
  used = some (model, text, results);
}

pub try_models : Env → RunnerInput → PromptAssembly → List Text → Tried
unfolding attempt
try_models e r p [] = record { attempts = []; posts = 0; used = none }
try_models e r p (model ∷ models) =
    let d = attempt e r p model in after_attempt model d.posts d.answer (try_models e r p models)

abbrev last_error : List ModelAttempt → Option Text → Option Text
last_error [] m = m
last_error (a ∷ as_) m = last_error as_ a.error

abbrev summary_line : ToolExecutionResult → Text
summary_line t =
    if t.ok
    then codes "- " ++ t.name ++ codes ": " ++ t.stdout
    else codes "- " ++ t.name ++ codes " failed: " ++ t.stderr

abbrev with_summary : Text → List ToolExecutionResult → Text
with_summary text [] = text
with_summary text (t ∷ ts) =
    text
    ++ newline
    ++ newline
    ++ codes "Tool results:"
    ++ newline
    ++ join newline (map summary_line (t ∷ ts))

-- The result once the models have been tried.
pub conclude :
    Env
    → RunnerInput
    → PromptAssembly
    → List ModelAttempt
    → Option (Text × Text × List ToolExecutionResult)
    → RuntimeAgentResult
conclude e r p attempts none = record {
  success = false;
  prompt = p.full_prompt;
  system_prompt = p.system_message;
  user_prompt = p.user_message;
  context_block = p.context_message;
  model_used = none;
  attempts = attempts;
  response_text = none;
  tool_results = [];
  error = some (or_text (last_error attempts none) (codes "no model candidates available"));
  execution = none;
}
conclude e r p attempts (some (model, text, results)) =
    let requested = execute_tool_calls e r.allowed_tools r.context r.tool_requests in
    record {
      success = true;
      prompt = p.full_prompt;
      system_prompt = p.system_message;
      user_prompt = p.user_message;
      context_block = p.context_message;
      model_used = some model;
      attempts = attempts;
      response_text = some (with_summary text requested);
      tool_results = results ++ requested;
      error = none;
      execution = none;
    }

-- `max_hops`
abbrev pub max_hops : ℕ
max_hops = 2

-- `run_agent`: the number of posts to the provider, and the result.
unfoldable pub run_agent : Env → RunnerInput → ℕ × RuntimeAgentResult
unfolding conclude try_models
run_agent e r =
    let p = build_prompt e r.system_prompt r.user_prompt r.context in
    if is_empty (strip (or_text r.image_ref []))
    then (let t = try_models e r p (build_failover_plan r.model_path max_hops) in
        (t.posts, conclude e r p t.attempts t.used))
    else (0, run_template_client_image e r p)
