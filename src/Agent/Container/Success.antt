-- ===== src/Agent/Container/Success.antt =====
-- When a run in a container succeeds: `run_template_client_image` of
-- services/runtime-agent/src/docker_runner.py.
use kuuna_support_agents.Common.{
  zero, suc, ◌-◌, length, drop, ◌≡◌, refl, ap, true, false, Option, none, some, [], ◌∷◌, Text,
  strip, is_empty, arith, Bool-cases, inl, inr, ◌↔◌,
}
use kuuna_support_agents.Agent.Container.Lines.{IsLastLine, last_line-eq, last_line-IsLastLine}
use kuuna_support_agents.Common.Json.{Json, Fields, obj, get, truthy}
use kuuna_support_agents.Agent.{
  Env, Limits, RunnerInput, RuntimeAgentResult, ContainerExecution, Completed, exited, timed_out,
  not_started,
}
use kuuna_support_agents.Agent.Prompt.{PromptAssembly, or_text}
use kuuna_support_agents.Agent.Container.{
  answered, text_or, model_name, read_payload, read_completed, run_execution, container_name,
  stdin_payload, is_safe_image_ref, container_command, docker_limits, tail, last_line,
  run_template_client_image,
}

abbrev pub Answers : RuntimeAgentResult → Text → Type 0
Answers result text = (result.success ≡ true) × (result.response_text ≡ some text)

-- The response of a payload.
abbrev pub response_of : Env → Fields → Text
response_of e payload = strip (text_or e (get "response_text" payload) [])

-- A decoded value that reports a success with this response.
abbrev pub Accepts : Env → Option Json → Text → Type 0
Accepts e j text =
    (payload : Fields) × (j ≡ some (obj payload))
    × (truthy (get "success" payload) ≡ true)
    × (response_of e payload ≡ text)
    × (is_empty text ≡ false)

answered-Answers :
    (p : PromptAssembly) (x : ContainerExecution) (model : Option Text) (response text : Text)
    → Answers (answered p x model response) text ↔ ((response ≡ text) × (is_empty text ≡ false))
answered-Answers p x model [] text =
    (λ (s, r). absurd (ground arith), λ (q, n). absurd (ground (arith, q)))
answered-Answers p x model (c ∷ t) text =
    (λ (s, r). (ground arith, ground arith), λ (q, n). (refl, ap some q))

read_payload-Accepts :
    (e : Env) (p : PromptAssembly) (x : ContainerExecution) (j : Option Json) (text : Text)
    → Answers (read_payload e p x j) text
    → Accepts e j text
unfolding read_payload
read_payload-Accepts e p x none text (s, r) = absurd (ground arith)
read_payload-Accepts e p x (some (obj payload)) text h =
    elim (Bool-cases (truthy (get "success" payload))) [
      | inl t ↦
          let a : Answers
              (answered p x (model_name (get "model_used" payload)) (response_of e payload)) text =
            rw t at h in
          let b =
            (answered-Answers p x (model_name (get "model_used" payload)) (response_of e payload)
                text).0
              a in
          (payload, refl, t, b.0, b.1)
      | inr t ↦ let a : false ≡ true = rw t at h.0 in absurd (ground arith)
    ]
read_payload-Accepts e p x (some _) text (s, r) = absurd (ground arith)

Accepts-read_payload :
    (e : Env) (p : PromptAssembly) (x : ContainerExecution) (j : Option Json) (text : Text)
    → Accepts e j text
    → Answers (read_payload e p x j) text
unfolding read_payload
Accepts-read_payload e p x j text (payload, q, t, a, n) =
    rw (q, t)
      ((answered-Answers p x (model_name (get "model_used" payload)) (response_of e payload) text).1
        (a, n))

-- A container that ended with the exit code 0, and whose output is this: of its last 4000 characters,
-- without the blanks around them, the last line is decoded to a dict that reports a success with this
-- response.
abbrev pub Reports : Env → Completed → Text → Type 0
Reports e c text =
    (stdout : Text) × (stderr : Text) × (line : Text) × (c ≡ exited 0 stdout stderr)
    × (is_empty (strip (drop (length stdout - 4000) stdout)) ≡ false)
    × IsLastLine (strip (drop (length stdout - 4000) stdout)) line
    × Accepts e (e.json_loads line) text

read_completed-Reports :
    (e : Env) (p : PromptAssembly) (l : Limits) (image name : Text) (c : Completed) (text : Text)
    → Answers (read_completed e p l image name c) text
    → Reports e c text
unfolding read_completed tail
read_completed-Reports e p l image name timed_out text (s, r) = absurd (ground arith)
read_completed-Reports e p l image name (not_started message) text (s, r) = absurd (ground arith)
read_completed-Reports e p l image name (exited (suc n) stdout stderr) text (s, r) =
    absurd (ground arith)
read_completed-Reports e p l image name (exited zero stdout stderr) text h =
    elim (Bool-cases (is_empty (tail stdout))) [
      | inl b ↦ let a : false ≡ true = rw b at h.0 in absurd (ground arith)
      | inr b ↦
          let x = run_execution l image name (some 0) (tail stdout) (tail stderr) false in
          let j = e.json_loads (last_line (tail stdout)) in
          let a : Answers (read_payload e p x j) text = rw b at h in
          (
            stdout,
            stderr,
            last_line (tail stdout),
            refl,
            b,
            last_line-IsLastLine (tail stdout),
            read_payload-Accepts e p x j text a,
          )
    ]

Reports-read_completed :
    (e : Env) (p : PromptAssembly) (l : Limits) (image name : Text) (c : Completed) (text : Text)
    → Reports e c text
    → Answers (read_completed e p l image name c) text
unfolding read_completed tail
Reports-read_completed e p l image name c text (stdout, stderr, line, q, b, s, a) =
    rw (q, b, last_line-eq (tail stdout) line s)
      (Accepts-read_payload e p
        (run_execution l image name (some 0) (tail stdout) (tail stderr) false) (e.json_loads line)
        text a)

-- What the container of a run gives.
abbrev pub completed_of : Env → RunnerInput → PromptAssembly → Completed
completed_of e r p =
    e.run_container
      (container_command e (docker_limits e) (container_name e r.trace_id)
        (strip (or_text r.image_ref [])))
      (stdin_payload r p)

-- A run in a container succeeds with a response exactly if its image reference is safe, and the
-- container ends with the exit code 0, and the last 4000 characters of its output, without the blanks
-- around them, end in a line that decodes to a dict with a true `success` and this response, which is
-- not blank.
pub container_success_iff :
    (e : Env) (r : RunnerInput) (p : PromptAssembly) (text : Text)
    → Answers (run_template_client_image e r p) text ↔ (
        (is_safe_image_ref (strip (or_text r.image_ref [])) ≡ true)
        × Reports e (completed_of e r p) text)
unfolding run_template_client_image
container_success_iff e r p text =
    let image = strip (or_text r.image_ref []) in
    let name = container_name e r.trace_id in
    let c = completed_of e r p in
    let l = docker_limits e in
    (
      λ h. elim (Bool-cases (is_safe_image_ref image)) [
        | inl b ↦
            let a : Answers (read_completed e p l image name c) text = rw b at h in
            (b, read_completed-Reports e p l image name c text a)
        | inr b ↦ let a : false ≡ true = rw b at h.0 in absurd (ground arith)
      ],
      λ (b, a). rw b (Reports-read_completed e p l image name c text a),
    )
