-- ===== src/Agent/Provider/Rounds.antt =====
-- The rounds of a dialogue with the model provider: how many there are, and what its tools did.
use kuuna_support_agents.Common.{
  ℕ, zero, suc, ◌≤◌, ◌≡◌, refl, ◌∙◌, true, Option, none, some, List, [], ◌∷◌, ◌++◌, Text, all,
  all-append, arith, Result, ok, err,
}
use kuuna_support_agents.Common.Json.{Json, Items, Fields, str, arr, obj, nil, cons, get}
use kuuna_support_agents.Agent.{Env, ToolExecutionResult}
use kuuna_support_agents.Agent.Prompt.{PromptAssembly}
use kuuna_support_agents.Agent.Tools.{is_confined, execute_tool_call-is_confined}
use kuuna_support_agents.Agent.Provider.{
  Dialogue, Executed, assistant_message, named_call, identified_call, execute_calls,
  parsed_arguments, final_text, after_message, after_completion, rounds, openai_tools,
  chat_completion, extract_message_text, run_openai_agent, max_tool_rounds,
}

-- The results of an answer.
abbrev pub results_of : Result Text (Text × List ToolExecutionResult) → List ToolExecutionResult
results_of (ok (text, results)) = results
results_of (err message) = []

module _ (e : Env) (allowed : List Text) (context : Fields) where
  abbrev pub AreConfined : List ToolExecutionResult → Type 0
  AreConfined results = all (is_confined allowed) results ≡ true

  -- A dialogue of at most so many posts, all of whose results are confined.
  abbrev pub IsGood : ℕ → Dialogue → Type 0
  IsGood n d = d.posts ≤ n × AreConfined (results_of d.answer)

  named_call-AreConfined :
      (call_id : Text) (name raw : Option Json) (rest : Executed)
      → AreConfined rest.0
      → AreConfined (named_call e allowed context call_id name raw rest).0
  named_call-AreConfined call_id (some (str name)) raw (results, messages) h = ground (
    arith,
    execute_tool_call-is_confined e allowed context
        (record { name = name; arguments = parsed_arguments e raw; timeout = none }),
  )
  named_call-AreConfined call_id _ raw (results, messages) h = h

  identified_call-AreConfined :
      (call_id function : Option Json) (rest : Executed)
      → AreConfined rest.0
      → AreConfined (identified_call e allowed context call_id function rest).0
  identified_call-AreConfined (some (str call_id)) (some (obj f)) rest h =
      named_call-AreConfined call_id (get "name" f) (get "arguments" f) rest h
  identified_call-AreConfined _ _ rest h = h

  execute_calls-AreConfined :
      (calls : Items) → AreConfined (execute_calls e allowed context calls).0
  unfolding execute_calls
  execute_calls-AreConfined nil = refl
  execute_calls-AreConfined (cons (obj d) js) =
      identified_call-AreConfined (get "id" d) (get "function" d)
        (execute_calls e allowed context js) (execute_calls-AreConfined js)
  execute_calls-AreConfined (cons _ js) = execute_calls-AreConfined js

  final_text-IsGood :
      (n : ℕ) (text : Text) (results : List ToolExecutionResult)
      → AreConfined results
      → IsGood (suc n) (final_text text results)
  final_text-IsGood n [] results h = (omega arith, refl)
  final_text-IsGood n (c ∷ t) results h = (omega arith, h)

  -- What goes on with a round keeps to the bound of the rounds that are left.
  abbrev GoesOn : ℕ → (List Json → List ToolExecutionResult → Dialogue) → Type 0
  GoesOn n rest =
      (messages : List Json) (results : List ToolExecutionResult)
      → AreConfined results
      → IsGood n (rest messages results)

  after_message-IsGood :
      (model : Text) (n : ℕ) (rest : List Json → List ToolExecutionResult → Dialogue)
      → GoesOn n rest
      → (messages : List Json) (results : List ToolExecutionResult) (message : Fields)
      → (calls : Option Json) → AreConfined results
      → IsGood (suc n) (after_message e model allowed context rest messages results message calls)
  unfolding after_message
  after_message-IsGood model n rest good messages results message (some (arr (cons call calls))) h =
      let done = execute_calls e allowed context (cons call calls) in
      let d =
        good (messages ++ assistant_message message (cons call calls) ∷ done.1) (results ++ done.0)
          (all-append (is_confined allowed) results done.0
            ∙ rw (h, execute_calls-AreConfined (cons call calls)) refl) in
      (omega (arith, d.0), d.1)
  after_message-IsGood model n rest good messages results message _ h =
      final_text-IsGood n (extract_message_text message) results h

  after_completion-IsGood :
      (model : Text) (n : ℕ) (rest : List Json → List ToolExecutionResult → Dialogue)
      → GoesOn n rest
      → (messages : List Json) (results : List ToolExecutionResult)
      → (completion : Result Text Fields) → AreConfined results
      → IsGood (suc n) (after_completion e model allowed context rest messages results completion)
  unfolding after_completion
  after_completion-IsGood model n rest good messages results (err message) h = (omega arith, refl)
  after_completion-IsGood model n rest good messages results (ok message) h =
      after_message-IsGood model n rest good messages results message (get "tool_calls" message) h

  rounds-GoesOn : (model : Text) (n : ℕ) → GoesOn n (rounds e model allowed context n)
  unfolding rounds
  rounds-GoesOn model zero messages results h = (omega arith, refl)
  rounds-GoesOn model (suc n) messages results h =
      after_completion-IsGood model n (rounds e model allowed context n) (rounds-GoesOn model n)
        messages results (chat_completion e model messages (openai_tools allowed)) h

  pub run_openai_agent-IsGood :
      (model : Text) (prompt : PromptAssembly)
      → IsGood max_tool_rounds (run_openai_agent e model prompt context allowed)
  unfolding run_openai_agent
  run_openai_agent-IsGood model prompt = rounds-GoesOn model max_tool_rounds _ [] refl
