-- ===== src/Agent/Run/Attempts.antt =====
-- What the attempts of a run say: `run_agent` of services/runtime-agent/src/runner.py without a container.
use kuuna_support_agents.Common.{
  ℕ, ◌≡◌, refl, ap, true, false, not, Option, none, some, List, [], ◌∷◌, ◌++◌, Text, strip,
  is_empty, map, Result, ok, err, is_some,
}
use kuuna_support_agents.Agent.{
  Env, RunnerInput, RuntimeAgentResult, ModelAttempt, ToolExecutionResult,
}
use kuuna_support_agents.Agent.Failover.{build_failover_plan}
use kuuna_support_agents.Agent.Prompt.{PromptAssembly, or_text, build_prompt}
use kuuna_support_agents.Agent.Run.{
  Tried, attempt, try_models, after_attempt, conclude, run_agent, max_hops, with_summary,
}
use kuuna_support_agents.Agent.Tools.{execute_tool_calls}

-- A model of the plan that failed, with its message.
abbrev pub Failure : Type 0
Failure = Text × Text

abbrev pub failed_attempt : Failure → ModelAttempt
failed_attempt (model, message) = record { model = model; success = false; error = some message }

abbrev pub model_of : Failure → Text
model_of x = x.0

module _ (e : Env) (r : RunnerInput) (p : PromptAssembly) where
  abbrev pub Answer : Type 0
  Answer = Result Text (Text × List ToolExecutionResult)

  -- What a model of the provider answers, and the answer of a model that failed.
  abbrev pub answer_of : Failure → Answer
  answer_of x = (attempt e r p x.0).answer

  abbrev pub error_of : Failure → Answer
  error_of x = err x.1

  -- The attempts that go with a plan, the model that was used and the response: all the models of the
  -- plan failed, or those before the model that was used, which answered.
  abbrev pub Follows : List Text → List ModelAttempt → Option Text → Option Text → Type 0
  Follows plan attempts none response =
      (failed : List Failure) × (map answer_of failed ≡ map error_of failed)
      × (attempts ≡ map failed_attempt failed)
      × (plan ≡ map model_of failed)
      × (response ≡ none)
  Follows plan attempts (some model) response =
      (failed : List Failure) × (later : List Text) × (text : Text) × (results : List
        ToolExecutionResult)
      × (map answer_of failed ≡ map error_of failed)
      × ((attempt e r p model).answer ≡ ok (text, results))
      × (attempts
          ≡ map failed_attempt failed
            ++ (record { model = model; success = true; error = none }) ∷ [])
      × (plan ≡ map model_of failed ++ model ∷ later)
      × (response
          ≡ some
              (with_summary text (execute_tool_calls e r.allowed_tools r.context r.tool_requests)))

  abbrev model_used : Option (Text × Text × List ToolExecutionResult) → Option Text
  model_used none = none
  model_used (some (model, text, results)) = some model

  abbrev response_of : Option (Text × Text × List ToolExecutionResult) → Option Text
  response_of none = none
  response_of (some (model, text, results)) =
      some (with_summary text (execute_tool_calls e r.allowed_tools r.context r.tool_requests))

  abbrev FollowsTried : List Text → Tried → Type 0
  FollowsTried plan t = Follows plan t.attempts (model_used t.used) (response_of t.used)

  Follows-cons :
      (message model : Text) (plan : List Text) (attempts : List ModelAttempt)
      (used response : Option Text)
      → (attempt e r p model).answer ≡ err message
      → Follows plan attempts used response
      → Follows (model ∷ plan) (failed_attempt (model, message) ∷ attempts) used response
  Follows-cons message model plan attempts none response q (failed, a, as_, ms, n) = (
    (model, message) ∷ failed,
    rw (q, a) refl,
    ap (λ xs. failed_attempt (model, message) ∷ xs) as_,
    ap (λ xs. model ∷ xs) ms,
    n,
  )
  Follows-cons message model plan attempts (some m) response q
        (failed, later, text, results, a, o, as_, ms, t) =
      (
        (model, message) ∷ failed,
        later,
        text,
        results,
        rw (q, a) refl,
        o,
        ap (λ xs. failed_attempt (model, message) ∷ xs) as_,
        ap (λ xs. model ∷ xs) ms,
        t,
      )

  after_attempt-Follows :
      (model : Text) (posts : ℕ) (answer : Answer) (plan : List Text) (t : Tried)
      → (attempt e r p model).answer ≡ answer
      → FollowsTried plan t
      → FollowsTried (model ∷ plan) (after_attempt model posts answer t)
  after_attempt-Follows model posts (err message) plan t q h =
      Follows-cons message model plan t.attempts (model_used t.used) (response_of t.used) q h
  after_attempt-Follows model posts (ok (text, results)) plan t q h =
      ([], plan, text, results, refl, q, refl, refl, refl)

  try_models-Follows : (plan : List Text) → FollowsTried plan (try_models e r p plan)
  unfolding try_models
  try_models-Follows [] = ([], refl, refl, refl, refl)
  try_models-Follows (model ∷ plan) =
      let d = attempt e r p model in
      after_attempt-Follows model d.posts d.answer plan (try_models e r p plan) refl
        (try_models-Follows plan)

-- A result tells of its success in one way.
abbrev pub IsConsistent : RuntimeAgentResult → Type 0
IsConsistent result =
    (result.success ≡ is_some result.model_used)
    × (result.success ≡ is_some result.response_text)
    × (result.success ≡ not (is_some result.error))

abbrev Concludes : Env → RunnerInput → PromptAssembly → List Text → RuntimeAgentResult → Type 0
Concludes e r p plan result =
    Follows e r p plan result.attempts result.model_used result.response_text × IsConsistent result

conclude-Concludes :
    (e : Env) (r : RunnerInput) (p : PromptAssembly) (plan : List Text)
    (attempts : List ModelAttempt) (used : Option (Text × Text × List ToolExecutionResult))
    → Follows e r p plan attempts (model_used e r p used) (response_of e r p used)
    → Concludes e r p plan (conclude e r p attempts used)
unfolding conclude
conclude-Concludes e r p plan attempts none h = (h, (refl, refl, refl))
conclude-Concludes e r p plan attempts (some (model, text, results)) h = (h, (refl, refl, refl))

-- A run without a container tries the models of the failover plan in order. It succeeds with the first
-- model that answers, with its text and the summary of the tools that the caller asked for, and its
-- attempts are the failures of the models before it, with their messages, and that success; or it fails
-- after a failed attempt of each model of the plan. There is a model and a response exactly if the run
-- succeeds, and an error exactly if it fails.
pub run_agent_attempts :
    (e : Env) (r : RunnerInput)
    → is_empty (strip (or_text r.image_ref [])) ≡ true
    → Follows e r
        (build_prompt e r.system_prompt r.user_prompt r.context)
        (build_failover_plan r.model_path max_hops)
        (run_agent e r).1.attempts
        (run_agent e r).1.model_used
        (run_agent e r).1.response_text
      × IsConsistent (run_agent e r).1
unfolding run_agent
run_agent_attempts e r h = rw h (
    let p = build_prompt e r.system_prompt r.user_prompt r.context in
    let plan = build_failover_plan r.model_path max_hops in
    let t = try_models e r p plan in
    conclude-Concludes e r p plan t.attempts t.used (try_models-Follows e r p plan))
