-- ===== src/Agent/Container.antt =====
-- A run in the container of a template: services/runtime-agent/src/docker_runner.py. The removal of
-- a container that overran its time, and the measured duration, are left out.
pub mod Lines
pub mod Success
use kuuna_support_agents.Common.{
  ℕ, zero, suc, ◌+◌, ◌-◌, ◌≡◌, refl, Bool-cases, inl, inr, Bool, true, false, ◌&&◌, ◌||◌, not,
  Option, none, some, List, [], ◌∷◌, ◌++◌, Text, String, codes, strip, is_empty, text_eq, contains,
  all, any, take, drop, length, map, if◌then◌else◌, leb, ltb, ◌==◌,
}
use kuuna_support_agents.Common.Json.{
  Json, Fields, null, arr, obj, field, end, get, items, truthy, or_null,
}
use kuuna_support_agents.Common.Json
use kuuna_support_agents.Agent.{
  Env, Limits, RunnerInput, RuntimeAgentResult, ContainerExecution, ModelAttempt, Completed, exited,
  timed_out, not_started,
}
use kuuna_support_agents.Agent.Prompt.{PromptAssembly, or_text}
use kuuna_support_agents.Agent.Tools.{to_text}

-- A character of `_IMAGE_REF_RE`.
abbrev pub is_image_code : ℕ → Bool
is_image_code c =
    leb 97 c && leb c 122
    || leb 65 c && leb c 90
    || leb 48 c && leb c 57
    || contains (c ∷ []) (map (λ k. k ∷ []) (codes "._/@:+-"))

-- `is_safe_image_ref`
unfoldable pub is_safe_image_ref : Text → Bool
unfolding contains
is_safe_image_ref value =
    let s = strip value in if is_empty s || ltb 512 (length s) then false else all is_image_code s

abbrev pub variable : Env → String → Text
variable e name = strip (or_text (e.getenv name) [])

abbrev or_default : Text → Text → Text
or_default [] d = d
or_default (c ∷ t) d = c ∷ t

-- `_docker_bin`
abbrev docker_bin : Env → Text
docker_bin e =
    or_default (strip (or_text (e.getenv "DOCKER_CLI_PATH") (codes "docker"))) (codes "docker")

abbrev truth_words : List Text
truth_words = [] ∷ codes "1" ∷ codes "true" ∷ codes "yes" ∷ codes "on" ∷ []

-- `_docker_limits`
pub docker_limits : Env → Limits
docker_limits e = record {
  memory = variable e "RUNTIME_AGENT_DOCKER_MEMORY";
  cpus = variable e "RUNTIME_AGENT_DOCKER_CPUS";
  pids_limit = variable e "RUNTIME_AGENT_DOCKER_PIDS_LIMIT";
  network = or_default (variable e "RUNTIME_AGENT_DOCKER_NETWORK") (codes "none");
  readonly = contains (e.lower (variable e "RUNTIME_AGENT_DOCKER_READONLY")) truth_words;
}

abbrev option : String → Text → List Text → List Text
option name [] rest = rest
option name (c ∷ t) rest = codes name ∷ (c ∷ t) ∷ rest

-- The command of the container.
pub container_command : Env → Limits → (name image_ref : Text) → List Text
container_command e l name image_ref =
    docker_bin e
    ∷ codes "run"
    ∷ codes "--rm"
    ∷ codes "-i"
    ∷ codes "--name"
    ∷ name
    ∷ codes "--network"
    ∷ l.network
    ∷ (let rest = option "--memory" l.memory (
          option "--cpus" l.cpus (
            option "--pids-limit" l.pids_limit (
              codes "--cap-drop"
              ∷ codes "ALL"
              ∷ codes "--security-opt"
              ∷ codes "no-new-privileges"
              ∷ image_ref
              ∷ []))) in
        if l.readonly
        then codes "--read-only" ∷ codes "--tmpfs" ∷ codes "/tmp:rw,nosuid,nodev,size=64m" ∷ rest
        else rest)

abbrev text_json : Option Text → Json
text_json none = null
text_json (some t) = Json.str t

abbrev texts : List Text → Json
texts ts = arr (items (map Json.str ts))

abbrev pub stdin_payload : RunnerInput → PromptAssembly → Fields
stdin_payload r p = field "trace_id" (text_json r.trace_id) (
    field "system_prompt" (Json.str p.system_message) (
      field "user_prompt" (Json.str p.user_message) (
        field "model_path" (texts r.model_path)
          (field "allowed_tools" (texts r.allowed_tools) (field "context" (obj r.context) end)))))

-- The last 4000 characters, without the surrounding blanks.
pub tail : Text → Text
tail t = strip (drop (length t - 4000) t)

-- `splitlines` breaks a text at these.
abbrev pub is_line_break : ℕ → Bool
is_line_break c = leb 10 c && leb c 13 || leb 28 c && leb c 30 || c == 133 || c == 8232 || c == 8233

-- `text.splitlines()[-1]`, for a text that does not end in a line break.
unfoldable pub last_line : Text → Text
last_line [] = []
last_line (c ∷ s) =
    let rest = last_line s in
    if any is_line_break s then rest else (if is_line_break c then s else c ∷ s)

abbrev failure : PromptAssembly → Option ContainerExecution → Text → RuntimeAgentResult
failure p execution message = record {
  success = false;
  prompt = p.full_prompt;
  system_prompt = p.system_message;
  user_prompt = p.user_message;
  context_block = p.context_message;
  model_used = none;
  attempts = [];
  response_text = none;
  tool_results = [];
  error = some message;
  execution = execution;
}

abbrev pub model_name : Option Json → Option Text
model_name (some (Json.str (c ∷ t))) = some (c ∷ t)
model_name _ = none

abbrev model_attempts : Option Text → List ModelAttempt
model_attempts none = []
model_attempts (some m) = (record { model = m; success = true; error = none }) ∷ []

-- `payload.get(key) or default`, as a text.
abbrev pub text_or : Env → Option Json → Text → Text
text_or e none d = d
text_or e (some j) d = if truthy (some j) then to_text e j else d

abbrev pub answered : PromptAssembly → ContainerExecution → Option Text → Text → RuntimeAgentResult
answered p x model [] = failure p (some x) (codes "client container returned empty response_text")
answered p x model (c ∷ t) = record {
  success = true;
  prompt = p.full_prompt;
  system_prompt = p.system_message;
  user_prompt = p.user_message;
  context_block = p.context_message;
  model_used = model;
  attempts = model_attempts model;
  response_text = some (c ∷ t);
  tool_results = [];
  error = none;
  execution = some x;
}

-- What the container printed, once it is decoded.
pub read_payload : Env → PromptAssembly → ContainerExecution → Option Json → RuntimeAgentResult
read_payload e p x none =
    failure p (some x) (codes "invalid JSON from client container: " ++ e.json_error)
read_payload e p x (some (obj payload)) =
    if truthy (get "success" payload)
    then answered p x (model_name (get "model_used" payload))
        (strip (text_or e (get "response_text" payload) []))
    else failure p (some x)
        (text_or e (get "error" payload) (codes "client container reported failure"))
read_payload e p x (some _) = failure p (some x) (codes "client container JSON was not an object")

abbrev pub run_execution : Limits → Text → Text → Option ℕ → Text → Text → Bool → ContainerExecution
run_execution l image name code out errors late = record {
  image_ref = image;
  container_name = name;
  exit_code = code;
  stdout_tail = out;
  stderr_tail = errors;
  timed_out = late;
  limits = l;
}

-- The result of the command.
pub read_completed :
    Env → PromptAssembly → Limits → (image name : Text) → Completed → RuntimeAgentResult
unfolding read_payload tail
read_completed e p l image name timed_out =
    failure p (some (run_execution l image name none [] [] true)) (codes "docker run timed out")
read_completed e p l image name (not_started message) =
    failure p (some (run_execution l image name none [] [] false))
      (codes "docker run failed: " ++ message)
read_completed e p l image name (exited zero stdout stderr) =
    let out = tail stdout in
    let x = run_execution l image name (some 0) out (tail stderr) false in
    if is_empty out
    then failure p (some x) (codes "client container produced empty stdout")
    else read_payload e p x (e.json_loads (last_line out))
read_completed e p l image name (exited (suc n) stdout stderr) =
    let errors = tail stderr in
    failure p (some (run_execution l image name (some (suc n)) (tail stdout) errors false)) (
      codes "docker exit "
      ++ e.show (suc n)
      ++ codes ": "
      ++ or_default errors (codes "(no stderr)"))

abbrev pub container_name : Env → Option Text → Text
container_name e trace =
    codes "kuuna-run-" ++ take 12 (or_text trace (codes "no-trace")) ++ codes "-" ++ e.uuid_hex

-- `run_template_client_image`
unfoldable pub run_template_client_image : Env → RunnerInput → PromptAssembly → RuntimeAgentResult
unfolding read_completed is_safe_image_ref docker_limits container_command
run_template_client_image e r p =
    let image = strip (or_text r.image_ref []) in
    let name = container_name e r.trace_id in
    let l = docker_limits e in
    if is_safe_image_ref image
    then read_completed e p l image name
        (e.run_container (container_command e l name image) (stdin_payload r p))
    else failure p none (codes "invalid or unsafe image_ref")

answered_tools :
    (p : PromptAssembly) (x : ContainerExecution) (model : Option Text) (text : Text)
    → (answered p x model text).tool_results ≡ []
answered_tools p x model [] = refl
answered_tools p x model (c ∷ t) = refl

read_payload_tools :
    (e : Env) (p : PromptAssembly) (x : ContainerExecution) (j : Option Json)
    → (read_payload e p x j).tool_results ≡ []
unfolding read_payload
read_payload_tools e p x none = refl
read_payload_tools e p x (some (obj payload)) = elim (Bool-cases (truthy (get "success" payload))) [
  | inl h ↦ rw h (
      answered_tools p x (model_name (get "model_used" payload))
        (strip (text_or e (get "response_text" payload) [])))
  | inr h ↦ rw h refl
]
read_payload_tools e p x (some _) = refl

read_completed_tools :
    (e : Env) (p : PromptAssembly) (l : Limits) (image name : Text) (c : Completed)
    → (read_completed e p l image name c).tool_results ≡ []
unfolding read_completed
read_completed_tools e p l image name timed_out = refl
read_completed_tools e p l image name (not_started message) = refl
read_completed_tools e p l image name (exited (suc n) stdout stderr) = refl
read_completed_tools e p l image name (exited zero stdout stderr) =
    let out = tail stdout in
    elim (Bool-cases (is_empty out)) [
      | inl h ↦ rw h refl
      | inr h ↦ rw h (
          read_payload_tools e p (run_execution l image name (some 0) out (tail stderr) false)
            (e.json_loads (last_line out)))
    ]

-- The agent runs no tool beside a container.
pub run_template_client_image_tools :
    (e : Env) (r : RunnerInput) (p : PromptAssembly)
    → (run_template_client_image e r p).tool_results ≡ []
unfolding run_template_client_image
run_template_client_image_tools e r p =
    let image = strip (or_text r.image_ref []) in
    let name = container_name e r.trace_id in
    let l = docker_limits e in
    elim (Bool-cases (is_safe_image_ref image)) [
      | inr h ↦ rw h refl
      | inl h ↦ rw h (
          read_completed_tools e p l image name
            (e.run_container (container_command e l name image) (stdin_payload r p)))
    ]
