-- ===== src/Execution/Remote.antt =====
-- The call of the runtime agent: `_run_via_runtime_agent` of backend/src/kuuna_backend/jobs/ingest.py.
-- The HTTP request is a parameter, and so are Python's texts of JSON values.
use kuuna_support_agents.Common.{
  ◌≡◌, refl, Bool, true, false, Bool-cases, inl, inr, arith, strip-strip, Option, none, some, List,
  [], ◌∷◌, Text, codes, strip, is_empty, take, add_new, map, if◌then◌else◌,
}
use kuuna_support_agents.Common.Json.{
  Json, Items, Fields, null, bool, str, arr, obj, nil, cons, field, end, get, items, truthy,
}

-- What `httpx.post` and `response.json` gave: the text of a refused request, a value, or a body that is
-- no JSON.
pub data Posted : Type 0 where
  refused : Text → Posted
  answered : Json → Posted
  undecodable : Posted

-- The dict that the function returns; `error` is that of its audit payload, which has none on success.
pub record RuntimeResult : Type 0 where
  pub success : Bool
  pub response_text : Text
  pub model_path : List Text
  pub execution : Option Fields
  pub error : Text
  pub audit_payload : Fields

pub record Request : Type 0 where
  pub trace_id : Option Text
  pub provider_group_id : Text
  pub system_prompt : Text
  pub user_prompt : Text
  pub model_path : List Text
  pub allowed_tools : List Text
  pub retrieval_refs : List Json
  pub image_ref : Text

abbrev pub text_json : Option Text → Json
text_json none = null
text_json (some t) = str t

abbrev pub texts : List Text → Json
texts ts = arr (items (map str ts))

abbrev pub request_payload : Request → Fields
request_payload r = field "trace_id" (text_json r.trace_id) (
    field "system_prompt" (str r.system_prompt) (
      field "user_prompt" (str r.user_prompt) (
        field "context"
          (obj (
            field "provider_group_id" (str r.provider_group_id)
              (field "retrieval_refs" (arr (items r.retrieval_refs)) end)))
          (field "model_path" (texts r.model_path) (
            field "allowed_tools" (texts r.allowed_tools)
              (field "tool_requests" (arr nil) (field "image_ref" (str r.image_ref) end)))))))

abbrev pub dict_of : Option Json → Option Fields
dict_of (some (obj d)) = some d
dict_of _ = none

abbrev pub dict_json : Option Fields → Json
dict_json none = null
dict_json (some d) = obj d

abbrev to_text : (to_str : Json → Text) → Json → Text
to_text to_str (str t) = t
to_text to_str j = to_str j

-- `str(value or default)`
abbrev pub text_or : (to_str : Json → Text) → Option Json → Text → Text
text_or to_str none d = d
text_or to_str (some j) d = if truthy (some j) then to_text to_str j else d

abbrev failure : Request → Text → Option Fields → Fields → RuntimeResult
failure r error execution more = record {
  success = false;
  response_text = [];
  model_path = [];
  execution = execution;
  error = error;
  audit_payload = field "trace_id" (text_json r.trace_id) (
      field "provider_group_id" (str r.provider_group_id) (
        field "image_ref" (str r.image_ref)
          (field "success" (bool false) (field "error" (str error) more))));
}

abbrev model_of : Option Json → List Text → List Text
model_of (some (str t)) acc = add_new acc t
model_of _ acc = acc

-- The loop over the attempts.
unfoldable pub attempt_models : List Text → Items → List Text
attempt_models acc nil = acc
attempt_models acc (cons (obj attempt) js) = attempt_models (model_of (get "model" attempt) acc) js
attempt_models acc (cons _ js) = attempt_models acc js

abbrev attempts_of : Option Json → List Text
attempts_of (some (arr js)) = attempt_models [] js
attempts_of _ = []

abbrev used_model : Option Json → List Text
used_model (some (str (c ∷ t))) = (c ∷ t) ∷ []
used_model _ = []

abbrev or_list : List Text → List Text → List Text
or_list [] ys = ys
or_list (x ∷ xs) ys = x ∷ xs

abbrev pub success_of : Request → Text → List Text → Option Fields → RuntimeResult
success_of r text path execution = record {
  success = true;
  response_text = text;
  model_path = path;
  execution = execution;
  error = [];
  audit_payload = field "trace_id" (text_json r.trace_id) (
      field "provider_group_id" (str r.provider_group_id) (
        field "image_ref" (str r.image_ref) (
          field "success" (bool true)
            (field "model_path" (texts path) (field "execution" (dict_json execution) end)))));
}

abbrev pub with_response : Request → Fields → Text → Option Fields → RuntimeResult
with_response r payload [] execution =
    failure r (codes "runtime-agent returned empty response_text") execution
      (field "execution" (dict_json execution) end)
with_response r payload (c ∷ t) execution =
    let models =
      or_list (attempts_of (get "attempts" payload)) (used_model (get "model_used" payload)) in
    success_of r (c ∷ t) (or_list models (take 1 r.model_path)) execution

-- What a decoded body gives; a body that is no dict has no `get`, so the job raises.
pub read_body : (to_str : Json → Text) → Request → Json → Option RuntimeResult
unfolding attempt_models
read_body to_str r (obj payload) =
    let execution = dict_of (get "execution" payload) in
    some (
      if truthy (get "success" payload)
      then with_response r payload (strip (text_or to_str (get "response_text" payload) []))
          execution
      else failure r (text_or to_str (get "error" payload) (codes "runtime-agent unsuccessful"))
          execution (field "execution" (dict_json execution) end))
read_body to_str r _ = none

abbrev after_post : (to_str : Json → Text) → Request → Posted → Option RuntimeResult
after_post to_str r (refused error) = some (failure r error none end)
after_post to_str r undecodable = none
after_post to_str r (answered j) = read_body to_str r j

-- `_run_via_runtime_agent`, with `none` for an exception.
unfoldable pub run_via_runtime_agent :
    (post : Fields → Posted) → (to_str : Json → Text) → Request → Option RuntimeResult
unfolding read_body
run_via_runtime_agent post to_str r = after_post to_str r (post (request_payload r))

-- A result that reports a success has a response that is not blank.
abbrev pub IsAnswered : Option RuntimeResult → Type 0
IsAnswered none = Unit
IsAnswered (some r) = r.success ≡ true → is_empty (strip r.response_text) ≡ false

with_response-IsAnswered :
    (r : Request) (payload : Fields) (text : Text) (execution : Option Fields)
    → strip text ≡ text
    → IsAnswered (some (with_response r payload text execution))
with_response-IsAnswered r payload [] execution h s = absurd (ground arith)
with_response-IsAnswered r payload (c ∷ t) execution h s = rw h refl

read_body-IsAnswered :
    (to_str : Json → Text) (r : Request) (j : Json) → IsAnswered (read_body to_str r j)
unfolding read_body
read_body-IsAnswered to_str r (obj payload) = elim (Bool-cases (truthy (get "success" payload))) [
  | inl k ↦ rw k (
      with_response-IsAnswered r payload (strip (text_or to_str (get "response_text" payload) []))
        (dict_of (get "execution" payload))
        (strip-strip (text_or to_str (get "response_text" payload) [])))
  | inr k ↦ rw k (λ s. absurd (ground arith))
]
read_body-IsAnswered to_str r _ = tt

after_post-IsAnswered :
    (to_str : Json → Text) (r : Request) (p : Posted) → IsAnswered (after_post to_str r p)
after_post-IsAnswered to_str r (refused error) = λ s. absurd (ground arith)
after_post-IsAnswered to_str r undecodable = tt
after_post-IsAnswered to_str r (answered j) = read_body-IsAnswered to_str r j

pub run_via_runtime_agent-IsAnswered :
    (post : Fields → Posted) (to_str : Json → Text) (r : Request)
    → IsAnswered (run_via_runtime_agent post to_str r)
unfolding run_via_runtime_agent
run_via_runtime_agent-IsAnswered post to_str r =
    after_post-IsAnswered to_str r (post (request_payload r))
