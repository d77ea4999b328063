-- ===== src/Agent/Tools.antt =====
-- The local tools: services/runtime-agent/src/tool_executor.py. A handler that overruns its time ends
-- in the result of the time-out.
use kuuna_support_agents.Common.{
  ℕ, zero, suc, ◌≡◌, refl, Bool, ◌&&◌, ◌||◌, is_empty, is_some, all, arith, Bool-cases,
  Option-cases, inl, inr, true, false, not, Option, none, some, List, [], ◌∷◌, ◌++◌, Text, codes,
  text_eq, contains, map, Result, ok, err, if◌then◌else◌,
}
use kuuna_support_agents.Common.Json.{Json, Fields, str, arr, obj, end, get, put, get_text, truthy}
use kuuna_support_agents.Agent.{Env, ToolInvocation, ToolExecutionResult}
use kuuna_support_agents.Agent.Prompt.{serialize_context_value}

pub data LocalTool : Type 0 where
  echo uppercase context_lookup : LocalTool

-- `LOCAL_TOOLS.get(name)`
pub local_tool : Text → Option LocalTool
local_tool name =
    if text_eq name (codes "echo")
    then some echo
    else (if text_eq name (codes "uppercase")
        then some uppercase
        else (if text_eq name (codes "context_lookup") then some context_lookup else none))

-- `str(value)`
abbrev pub to_text : Env → Json → Text
to_text e (str t) = t
to_text e j = e.str j

abbrev text_argument : Env → Option Json → Text
text_argument e none = []
text_argument e (some j) = to_text e j

abbrev found_key : Env → Text → Option Json → Result Text Text
found_key e key none = err (e.repr (codes "context key not found: " ++ key))
found_key e key (some v) = ok (serialize_context_value e v)

-- A key that is a list or a dict cannot be looked up, any other that is no text is not there.
abbrev lookup_key : Env → Json → Fields → Result Text Text
lookup_key e (str k) context = found_key e k (get_text k context)
lookup_key e (arr js) context = err e.type_error
lookup_key e (obj d) context = err e.type_error
lookup_key e j context = found_key e (e.str j) none

abbrev lookup_truthy : Env → Option Json → Fields → Result Text Text
lookup_truthy e none context = err (codes "context_lookup expects a non-empty 'key'")
lookup_truthy e (some j) context =
    if truthy (some j)
    then lookup_key e j context
    else err (codes "context_lookup expects a non-empty 'key'")

abbrev lookup_in : Env → Option Json → Option Json → Result Text Text
lookup_in e (some (obj d)) key = lookup_truthy e key d
lookup_in e context key =
    if truthy context
    then err (codes "context_lookup expects a mapping in 'context'")
    else lookup_truthy e key end

-- `_tool_echo`, `_tool_uppercase` and `_tool_context_lookup`: the output, or the text of the exception.
run_tool : Env → LocalTool → Fields → Result Text Text
run_tool e echo arguments = ok (text_argument e (get "text" arguments))
run_tool e uppercase arguments = ok (e.upper (text_argument e (get "text" arguments)))
run_tool e context_lookup arguments = lookup_in e (get "context" arguments) (get "key" arguments)

abbrev with_context : Fields → Fields → Fields
with_context context arguments = elim (get "context" arguments) [
  | none ↦ put "context" (obj context) arguments
  | some _ ↦ arguments
]

-- `tool_call.timeout_seconds or DEFAULT_TOOL_TIMEOUT_SECONDS`
abbrev timeout_or_default : Option ℕ → ℕ
timeout_or_default none = 200
timeout_or_default (some zero) = 200
timeout_or_default (some (suc n)) = suc n

abbrev failed : Text → Text → ToolExecutionResult
failed name stderr = record {
  name = name;
  ok = false;
  stdout = [];
  stderr = stderr;
  timed_out = false;
}

abbrev ran : Text → Result Text Text → ToolExecutionResult
ran name (ok out) = record { name = name; ok = true; stdout = out; stderr = []; timed_out = false }
ran name (err message) = failed name message

abbrev overran : Env → Text → ℕ → ToolExecutionResult
overran e name t = record {
  name = name;
  ok = false;
  stdout = [];
  stderr = codes "tool execution timed out after " ++ e.show_seconds t ++ codes "s";
  timed_out = true;
}

-- `_run_with_timeout`
run_with_timeout : Env → ToolInvocation → LocalTool → Fields → ToolExecutionResult
unfolding run_tool
run_with_timeout e call tool arguments =
    let t = timeout_or_default call.timeout in
    if e.overruns call t then overran e call.name t else ran call.name (run_tool e tool arguments)

-- `execute_tool_call`
unfoldable pub execute_tool_call :
    Env → (allowed_tools : List Text) → (context : Fields) → ToolInvocation → ToolExecutionResult
unfolding run_with_timeout local_tool
execute_tool_call e allowed context call =
    if not (contains call.name allowed)
    then failed call.name (codes "tool not allowed: " ++ call.name)
    else (elim (local_tool call.name) [
      | none ↦ failed call.name (codes "unknown local tool: " ++ call.name)
      | some tool ↦ run_with_timeout e call tool (with_context context call.arguments)
    ])

-- `execute_tool_calls`
abbrev pub execute_tool_calls :
    Env → List Text → Fields → List ToolInvocation → List ToolExecutionResult
execute_tool_calls e allowed context = map (execute_tool_call e allowed context)

-- The result is of a local tool that is allowed, or it is a refusal, with no output.
abbrev pub is_confined : (allowed : List Text) → ToolExecutionResult → Bool
is_confined allowed t =
    contains t.name allowed && is_some (local_tool t.name)
    || not t.ok && is_empty t.stdout && not t.timed_out

ran-is_confined :
    (allowed : List Text) (name : Text) (outcome : Result Text Text)
    → contains name allowed ≡ true
    → is_some (local_tool name) ≡ true
    → is_confined allowed (ran name outcome) ≡ true
ran-is_confined allowed name (ok out) h l = ground arith
ran-is_confined allowed name (err message) h l = ground arith

run_with_timeout-is_confined :
    (e : Env) (allowed : List Text) (call : ToolInvocation) (tool : LocalTool) (arguments : Fields)
    → contains call.name allowed ≡ true
    → is_some (local_tool call.name) ≡ true
    → is_confined allowed (run_with_timeout e call tool arguments) ≡ true
unfolding run_with_timeout
run_with_timeout-is_confined e allowed call tool arguments h l =
    let t = timeout_or_default call.timeout in
    elim (Bool-cases (e.overruns call t)) [
      | inl o ↦ rw o (ground arith)
      | inr o ↦ rw o (ran-is_confined allowed call.name (run_tool e tool arguments) h l)
    ]

pub execute_tool_call-is_confined :
    (e : Env) (allowed : List Text) (context : Fields) (call : ToolInvocation)
    → is_confined allowed (execute_tool_call e allowed context call) ≡ true
unfolding execute_tool_call
execute_tool_call-is_confined e allowed context call =
    elim (Bool-cases (contains call.name allowed)) [
      | inr h ↦ rw h (ground arith)
      | inl h ↦ rw h (elim (Option-cases (local_tool call.name)) [
        | inl l ↦ rw l (ground arith)
        | inr (tool, l) ↦ rw l (
            run_with_timeout-is_confined e allowed call tool (with_context context call.arguments) h
              (rw l refl))
      ])
    ]

pub execute_tool_calls-is_confined :
    (e : Env) (allowed : List Text) (context : Fields) (calls : List ToolInvocation)
    → all (is_confined allowed) (execute_tool_calls e allowed context calls) ≡ true
execute_tool_calls-is_confined e allowed context [] = refl
execute_tool_calls-is_confined e allowed context (call ∷ calls) = ground (
  arith,
  execute_tool_call-is_confined e allowed context call,
  execute_tool_calls-is_confined e allowed context calls,
)
