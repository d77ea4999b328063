-- ===== src/Agent/Provider.antt =====
-- The dialogue with the model provider: `_openai_tools`, `_extract_message_text`, `_chat_completion` and
-- `_run_openai_agent` of services/runtime-agent/src/runner.py. The constant temperature of a request is
-- left out. Each function that posts counts its posts.
pub mod Rounds
use kuuna_support_agents.Common.{
  ℕ, zero, suc, ◌+◌, ◌≡◌, Bool, true, false, not, Option, none, some, List, [], ◌∷◌, ◌++◌, Text,
  codes, strip, join, newline, is_empty, starts_with, drop, text_eq, filter, Result, ok, err,
  if◌then◌else◌, String,
}
use kuuna_support_agents.Common.Json.{
  Json, Items, Fields, null, bool, num, str, arr, obj, nil, cons, field, end, get, items, or_null,
}
use kuuna_support_agents.Agent.{Env, ToolInvocation, ToolExecutionResult}
use kuuna_support_agents.Agent.Prompt.{PromptAssembly}
use kuuna_support_agents.Agent.Tools.{
  LocalTool, echo, uppercase, context_lookup, local_tool, execute_tool_call,
}

-- `MAX_TOOL_ROUNDS`
abbrev pub max_tool_rounds : ℕ
max_tool_rounds = 4

abbrev text_parameter : (key description : String) → Json
text_parameter key description = obj (
    field "type" (str (codes "object")) (
      field "properties"
        (obj (
          field key
            (obj (
              field "type" (str (codes "string"))
                (field "description" (str (codes description)) end)))
            end))
        (field "required" (arr (cons (str (codes key)) nil)) end)))

abbrev tool_description : LocalTool → Text
tool_description echo = codes "Return the provided text unchanged."
tool_description uppercase = codes "Convert the provided text to uppercase."
tool_description context_lookup = codes "Lookup one key from runtime context."

abbrev tool_parameters : LocalTool → Json
tool_parameters echo = text_parameter "text" "Text to echo back."
tool_parameters uppercase = text_parameter "text" "Text to transform."
tool_parameters context_lookup = text_parameter "key" "Context key to read from runtime context."

abbrev described : Text → Option LocalTool → List Json → List Json
described name none rest = rest
described name (some tool) rest =
    obj (
      field "type" (str (codes "function")) (
        field "function"
          (obj (
            field "name" (str name) (
              field "description" (str (tool_description tool))
                (field "parameters" (tool_parameters tool) end))))
          end))
    ∷ rest

-- `_openai_tools`
pub openai_tools : (allowed_tools : List Text) → List Json
openai_tools [] = []
openai_tools (name ∷ names) = described name (local_tool name) (openai_tools names)

abbrev non_blank : Text → Bool
non_blank t = not (is_empty t)

abbrev text_part : Option Json → Option Json → List Text → List Text
text_part (some (str kind)) (some (str t)) rest =
    if text_eq kind (codes "text") then strip t ∷ rest else rest
text_part _ _ rest = rest

abbrev text_parts : Items → List Text
text_parts nil = []
text_parts (cons (obj d) js) = text_part (get "type" d) (get "text" d) (text_parts js)
text_parts (cons _ js) = text_parts js

abbrev content_text : Option Json → Text
content_text (some (str t)) = strip t
content_text (some (arr js)) = strip (join newline (filter non_blank (text_parts js)))
content_text _ = []

-- `_extract_message_text`
pub extract_message_text : Fields → Text
extract_message_text message = content_text (get "content" message)

-- `_normalize_model_name`
pub normalize_model_name : Text → Text
normalize_model_name model =
    let m = strip model in
    if starts_with m (codes "openai/")
    then drop 7 m
    else (if starts_with m (codes "openai:") then drop 7 m else m)

abbrev completion_body : Text → List Json → List Json → Fields
completion_body model messages [] =
    field "model" (str model) (field "messages" (arr (items messages)) end)
completion_body model messages (t ∷ ts) = field "model" (str model) (
    field "messages" (arr (items messages))
      (field "tools" (arr (items (t ∷ ts))) (field "tool_choice" (str (codes "auto")) end)))

abbrev malformed : Result Text Fields
malformed = err (codes "openai returned malformed message payload")

abbrev message_of : Option Json → Result Text Fields
message_of (some (obj message)) = ok message
message_of _ = malformed

abbrev first_message : Env → Json → Result Text Fields
first_message e (obj choice) = message_of (get "message" choice)
first_message e _ = err e.type_error

abbrev choices_message : Env → Option Json → Result Text Fields
choices_message e (some (arr (cons choice js))) = first_message e choice
choices_message e _ = err (codes "openai returned no choices")

abbrev payload_message : Env → Result Text Json → Result Text Fields
payload_message e (err message) = err message
payload_message e (ok (obj payload)) = choices_message e (get "choices" payload)
payload_message e (ok _) = err e.type_error

-- `_chat_completion`, for an API key that is set: the message, or the text of the exception.
unfoldable pub chat_completion : Env → Text → List Json → List Json → Result Text Fields
unfolding normalize_model_name
chat_completion e model messages tools =
    payload_message e (e.post (completion_body (normalize_model_name model) messages tools))

abbrev decoded : Option Json → Fields
decoded (some (obj d)) = d
decoded _ = end

-- The arguments of a tool call, which come as JSON in a text.
pub parsed_arguments : Env → Option Json → Fields
parsed_arguments e (some (str raw)) =
    if is_empty (strip raw) then end else decoded (e.json_loads raw)
parsed_arguments e _ = end

abbrev tool_content : ToolExecutionResult → Text
tool_content r = if r.ok then r.stdout else codes "ERROR: " ++ r.stderr

abbrev tool_message : Text → ToolExecutionResult → Json
tool_message call_id r = obj (
    field "role" (str (codes "tool"))
      (field "tool_call_id" (str call_id) (field "content" (str (tool_content r)) end)))

-- The results and the messages of a list of tool calls.
abbrev pub Executed : Type 0
Executed = List ToolExecutionResult × List Json

abbrev pub also : Text → ToolExecutionResult → Executed → Executed
also call_id r (results, messages) = (r ∷ results, tool_message call_id r ∷ messages)

abbrev pub named_call :
    Env → List Text → Fields → Text → Option Json → Option Json → Executed → Executed
named_call e allowed context call_id (some (str name)) raw rest =
    also call_id
      (execute_tool_call e allowed context
        (record { name = name; arguments = parsed_arguments e raw; timeout = none }))
      rest
named_call e allowed context call_id _ raw rest = rest

abbrev pub identified_call :
    Env → List Text → Fields → Option Json → Option Json → Executed → Executed
identified_call e allowed context (some (str call_id)) (some (obj f)) rest =
    named_call e allowed context call_id (get "name" f) (get "arguments" f) rest
identified_call e allowed context _ _ rest = rest

-- The loop over the tool calls of a message.
pub execute_calls : Env → (allowed : List Text) → (context : Fields) → Items → Executed
unfolding parsed_arguments
execute_calls e allowed context nil = ([], [])
execute_calls e allowed context (cons (obj d) js) =
    identified_call e allowed context (get "id" d) (get "function" d)
      (execute_calls e allowed context js)
execute_calls e allowed context (cons _ js) = execute_calls e allowed context js

abbrev pub assistant_message : Fields → Items → Json
assistant_message message calls = obj (
    field "role" (str (codes "assistant"))
      (field "content" (or_null (get "content" message)) (field "tool_calls" (arr calls) end)))

-- How a dialogue ended, after so many posts: the text and the results of the tools, or an exception.
pub record Dialogue : Type 0 where
  pub posts : ℕ
  pub answer : Result Text (Text × List ToolExecutionResult)

abbrev ended : Result Text (Text × List ToolExecutionResult) → Dialogue
ended r = record { posts = 1; answer = r }

abbrev one_more : Dialogue → Dialogue
one_more d = record d { posts = suc d.posts }

abbrev pub final_text : Text → List ToolExecutionResult → Dialogue
final_text [] results = ended (err (codes "openai returned empty response"))
final_text (c ∷ t) results = ended (ok (c ∷ t, results))

module _ (e : Env) (model : Text) (allowed : List Text) (context : Fields) where
  -- What follows a message of the provider; `rest` goes on with the next round.
  pub after_message :
      (rest : List Json → List ToolExecutionResult → Dialogue)
      → List Json
      → List ToolExecutionResult
      → Fields
      → Option Json
      → Dialogue
  unfolding execute_calls extract_message_text
  after_message rest messages results message (some (arr (cons call calls))) =
      let (done, answers) = execute_calls e allowed context (cons call calls) in
      one_more
        (rest (messages ++ assistant_message message (cons call calls) ∷ answers) (results ++ done))
  after_message rest messages results message _ = final_text (extract_message_text message) results

  pub after_completion :
      (rest : List Json → List ToolExecutionResult → Dialogue)
      → List Json
      → List ToolExecutionResult
      → Result Text Fields
      → Dialogue
  unfolding after_message
  after_completion rest messages results (err message) = ended (err message)
  after_completion rest messages results (ok message) =
      after_message rest messages results message (get "tool_calls" message)

  -- The loop over the rounds.
  pub rounds : ℕ → List Json → List ToolExecutionResult → Dialogue
  unfolding after_completion
  rounds zero messages results = record {
    posts = 0;
    answer = err (codes "max tool rounds reached without final response");
  }
  rounds (suc n) messages results =
      after_completion (rounds n) messages results
        (chat_completion e model messages (openai_tools allowed))

abbrev message : (role : String) → Text → Json
message role content = obj (field "role" (str (codes role)) (field "content" (str content) end))

abbrev context_part : Option Text → List Json → List Json
context_part none ms = ms
context_part (some []) ms = ms
context_part (some (c ∷ t)) ms = message "system" (c ∷ t) ∷ ms

-- `_run_openai_agent`
unfoldable pub run_openai_agent : Env → Text → PromptAssembly → Fields → List Text → Dialogue
unfolding rounds
run_openai_agent e model prompt context allowed =
    rounds e model allowed context max_tool_rounds
      (message "system" prompt.system_message
        ∷ context_part prompt.context_message (message "user" prompt.user_message ∷ []))
      []
