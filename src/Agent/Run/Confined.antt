-- ===== src/Agent/Run/Confined.antt =====
-- The tools and the posts of a run: `run_agent` of services/runtime-agent/src/runner.py.
use kuuna_support_agents.Common.{
  ℕ, suc, ◌*◌, ◌≤◌, ◌≡◌, refl, ◌∙◌, true, Option, none, some, List, [], ◌∷◌, Text, strip, is_empty,
  all, length, all-append, arith, Bool-cases, inl, inr, Result, ok, err,
}
use kuuna_support_agents.Agent.{Env, RunnerInput, ToolExecutionResult, ModelAttempt}
use kuuna_support_agents.Agent.Failover.{build_failover_plan, failover_plan_bounds}
use kuuna_support_agents.Agent.Prompt.{PromptAssembly, or_text, build_prompt}
use kuuna_support_agents.Agent.Tools.{
  is_confined, execute_tool_calls, execute_tool_calls-is_confined,
}
use kuuna_support_agents.Agent.Provider.{max_tool_rounds}
use kuuna_support_agents.Agent.Provider.Rounds.{
  IsGood, AreConfined, results_of, run_openai_agent-IsGood,
}
use kuuna_support_agents.Agent.Container.{run_template_client_image_tools}
use kuuna_support_agents.Agent.Run.{
  Tried, placeholder_dialogue, call_placeholder_model, has_api_key, attempt, after_attempt,
  try_models, conclude, run_agent, max_hops,
}

placeholder_dialogue-IsGood :
    (e : Env) (r : RunnerInput) (answer : Result Text Text)
    → IsGood e r.allowed_tools r.context max_tool_rounds (placeholder_dialogue answer)
placeholder_dialogue-IsGood e r (ok text) = (omega arith, refl)
placeholder_dialogue-IsGood e r (err message) = (omega arith, refl)

attempt-IsGood :
    (e : Env) (r : RunnerInput) (p : PromptAssembly) (model : Text)
    → IsGood e r.allowed_tools r.context max_tool_rounds (attempt e r p model)
unfolding attempt
attempt-IsGood e r p model = elim (Bool-cases (has_api_key e)) [
  | inl h ↦ rw h (run_openai_agent-IsGood e r.allowed_tools r.context model p)
  | inr h ↦ rw h (placeholder_dialogue-IsGood e r (call_placeholder_model e model p))
]

abbrev used_results : Option (Text × Text × List ToolExecutionResult) → List ToolExecutionResult
used_results none = []
used_results (some (model, text, results)) = results

-- The models of a plan post at most the rounds of each, and the results are confined.
abbrev IsTried : Env → RunnerInput → ℕ → Tried → Type 0
IsTried e r n t =
    t.posts ≤ max_tool_rounds * n × AreConfined e r.allowed_tools r.context (used_results t.used)

after_attempt-IsTried :
    (e : Env) (r : RunnerInput) (model : Text) (n posts : ℕ)
    (answer : Result Text (Text × List ToolExecutionResult)) (t : Tried)
    → posts ≤ max_tool_rounds
    → AreConfined e r.allowed_tools r.context (results_of answer)
    → IsTried e r n t
    → IsTried e r (suc n) (after_attempt model posts answer t)
after_attempt-IsTried e r model n posts (err message) t b c h = (omega (arith, h.0), h.1)
after_attempt-IsTried e r model n posts (ok (text, results)) t b c h = (omega arith, c)

try_models-IsTried :
    (e : Env) (r : RunnerInput) (p : PromptAssembly) (plan : List Text)
    → IsTried e r (length plan) (try_models e r p plan)
unfolding try_models
try_models-IsTried e r p [] = (omega arith, refl)
try_models-IsTried e r p (model ∷ plan) =
    let d = attempt e r p model in
    let good = attempt-IsGood e r p model in
    after_attempt-IsTried e r model (length plan) d.posts d.answer (try_models e r p plan) good.0
      good.1 (try_models-IsTried e r p plan)

conclude-AreConfined :
    (e : Env) (r : RunnerInput) (p : PromptAssembly) (attempts : List ModelAttempt)
    (used : Option (Text × Text × List ToolExecutionResult))
    → AreConfined e r.allowed_tools r.context (used_results used)
    → AreConfined e r.allowed_tools r.context (conclude e r p attempts used).tool_results
unfolding conclude
conclude-AreConfined e r p attempts none h = refl
conclude-AreConfined e r p attempts (some (model, text, results)) h =
    all-append (is_confined r.allowed_tools) results
      (execute_tool_calls e r.allowed_tools r.context r.tool_requests)
    ∙ rw (h, execute_tool_calls-is_confined e r.allowed_tools r.context r.tool_requests) refl

-- Every tool result of a run, whether the model asked for the tool or the caller, is of a local tool that
-- the run allows, or is a refusal: not ok, with no output, and not for a time-out.
pub run_agent_tools :
    (e : Env) (r : RunnerInput)
    → all (is_confined r.allowed_tools) (run_agent e r).1.tool_results ≡ true
unfolding run_agent
run_agent_tools e r =
    let p = build_prompt e r.system_prompt r.user_prompt r.context in
    let t = try_models e r p (build_failover_plan r.model_path max_hops) in
    elim (Bool-cases (is_empty (strip (or_text r.image_ref [])))) [
      | inl h ↦ rw h (
          conclude-AreConfined e r p t.attempts t.used
            (try_models-IsTried e r p (build_failover_plan r.model_path max_hops)).1)
      | inr h ↦ rw (h, run_template_client_image_tools e r p) refl
    ]

-- A run posts at most twelve times to the provider: four rounds for each of three models.
pub run_agent_posts :
    (e : Env) (r : RunnerInput) → (run_agent e r).0 ≤ max_tool_rounds * suc max_hops
unfolding run_agent
run_agent_posts e r =
    let p = build_prompt e r.system_prompt r.user_prompt r.context in
    let plan = build_failover_plan r.model_path max_hops in
    elim (Bool-cases (is_empty (strip (or_text r.image_ref [])))) [
      | inl h ↦ rw h (
          let t = try_models-IsTried e r p plan in
          let few = failover_plan_bounds r.model_path max_hops [] in omega (arith, t.0, few.1))
      | inr h ↦ rw h (omega arith)
    ]
