-- ===== src/Agent.antt =====
-- The runtime agent: services/runtime-agent/src. Its input and its result are those of
-- result_schema.py; a duration is measured by the clock and is left out. The environment answers for
-- the model provider, the containers, Python's conversions to text and the time that a tool takes.
pub mod Failover
pub mod Prompt
pub mod Tools
pub mod Provider
pub mod Container
pub mod Run
mod Tests
use kuuna_support_agents.Common.{
  ℕ, ◌≡◌, Bool, true, false, Option, none, some, List, [], ◌∷◌, Text, String, Result, ok, err,
}
use kuuna_support_agents.Common.Json.{Json, Fields}

-- A time-out is a number of hundredths of a second.
pub record ToolInvocation : Type 0 where
  pub name : Text
  pub arguments : Fields
  pub timeout : Option ℕ

pub record RunnerInput : Type 0 where
  pub trace_id : Option Text
  pub system_prompt : Option Text
  pub user_prompt : Text
  pub context : Fields
  pub model_path : List Text
  pub allowed_tools : List Text
  pub tool_requests : List ToolInvocation
  pub image_ref : Option Text

pub record ModelAttempt : Type 0 where
  pub model : Text
  pub success : Bool
  pub error : Option Text

pub record ToolExecutionResult : Type 0 where
  pub name : Text
  pub ok : Bool
  pub stdout : Text
  pub stderr : Text
  pub timed_out : Bool

-- The limits of `_docker_limits`; an empty text where none is set.
pub record Limits : Type 0 where
  pub memory : Text
  pub cpus : Text
  pub pids_limit : Text
  pub network : Text
  pub readonly : Bool

pub record ContainerExecution : Type 0 where
  pub image_ref : Text
  pub container_name : Text
  pub exit_code : Option ℕ
  pub stdout_tail : Text
  pub stderr_tail : Text
  pub timed_out : Bool
  pub limits : Limits

pub record RuntimeAgentResult : Type 0 where
  pub success : Bool
  pub prompt : Text
  pub system_prompt : Text
  pub user_prompt : Text
  pub context_block : Option Text
  pub model_used : Option Text
  pub attempts : List ModelAttempt
  pub response_text : Option Text
  pub tool_results : List ToolExecutionResult
  pub error : Option Text
  pub execution : Option ContainerExecution

-- How `subprocess.run` ended. An exit code is a number; the outputs are decoded.
pub data Completed : Type 0 where
  exited : (returncode : ℕ) → (stdout stderr : Text) → Completed
  timed_out : Completed
  not_started : Text → Completed

pub record Env : Type 0 where
  -- The answer of the provider to a request body: the decoded JSON, or the text of the exception.
  pub post : Fields → Result Text Json
  -- An environment variable, with its surrounding blanks.
  pub getenv : String → Option Text
  -- `subprocess.run` of a command with this standard input.
  pub run_container : List Text → Fields → Completed
  -- Eight hexadecimal digits of a new UUID.
  pub uuid_hex : Text
  -- `json.loads`, with `none` for a `JSONDecodeError`, and the text of that error.
  pub json_loads : Text → Option Json
  pub json_error : Text
  -- `json.dumps` of a value, `str` of a value, `repr` of a text, and `str` of a number.
  pub json_dumps : Json → Text
  pub str : Json → Text
  pub repr : Text → Text
  pub show : ℕ → Text
  -- A time-out in seconds with two decimals.
  pub show_seconds : ℕ → Text
  pub upper : Text → Text
  pub lower : Text → Text
  -- The text of an `AttributeError` or a `TypeError` that the code itself raises.
  pub type_error : Text
  -- The handler is still running after so many hundredths of a second.
  pub overruns : ToolInvocation → ℕ → Bool
