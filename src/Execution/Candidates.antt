-- ===== src/Execution/Candidates.antt =====
-- The models that a reply tries: `_extract_model_candidates` and `_normalize_model_candidate` of
-- backend/src/kuuna_backend/jobs/ingest.py. `str.lower` is a parameter.
use kuuna_support_agents.Common.{
  ◌≤◌, Option, none, some, List, [], ◌∷◌, ◌++◌, Text, codes, strip, is_empty, contains, text_eq,
  add_new, count-add_new, count, length, if◌then◌else◌, ◌==◌, arith,
}
use kuuna_support_agents.Common.Json.{Json, Items, Fields, str, arr, obj, nil, cons, get, truthy}

-- `_DEFAULT_MODEL`
abbrev pub default_model : Text
default_model = codes "gpt-4.1-mini"

-- `_PROVIDER_TOKENS`
abbrev pub provider_tokens : List Text
provider_tokens = codes "openai" ∷ codes "anthropic" ∷ codes "google" ∷ codes "azure-openai" ∷ []

-- `text.split("/", 1)`, where there is a slash.
pub split_at_slash : Text → Option (Text × Text)
split_at_slash [] = none
split_at_slash (c ∷ s) =
    let rest = split_at_slash s in
    if c == 47 then some ([], s) else (elim rest [ none ↦ none | some (a, b) ↦ some (c ∷ a, b) ])

abbrev after_provider : (lower : Text → Text) → Text → Option (Text × Text) → Text
after_provider lower normalized none = normalized
after_provider lower normalized (some (provider, model_name)) =
    if contains (lower (strip provider)) provider_tokens then strip model_name else normalized

-- `_normalize_model_candidate`
unfoldable pub normalize_model_candidate : (lower : Text → Text) → Text → Text
unfolding split_at_slash
normalize_model_candidate lower candidate =
    let normalized = strip candidate in
    if is_empty normalized
    then []
    else (if contains (lower normalized) provider_tokens
        then []
        else after_provider lower normalized (split_at_slash normalized))

abbrev texts_of : Items → List Text
texts_of nil = []
texts_of (cons (str t) js) = t ∷ texts_of js
texts_of (cons _ js) = texts_of js

abbrev list_at : Option Json → List Text
list_at (some (arr js)) = texts_of js
list_at _ = []

abbrev text_at : Option Json → List Text
text_at (some (str t)) = t ∷ []
text_at _ = []

-- The lists under the first keys, and the texts under the others.
abbrev lists_of : Fields → List Text
lists_of d =
    list_at (get "failover_chain" d)
    ++ list_at (get "failoverChain" d)
    ++ list_at (get "model_chain" d)
    ++ list_at (get "modelChain" d)
    ++ list_at (get "models" d)
    ++ list_at (get "model_path" d)

abbrev names_of : Fields → List Text
names_of d =
    text_at (get "model" d)
    ++ text_at (get "model_name" d)
    ++ text_at (get "modelName" d)
    ++ text_at (get "model_id" d)
    ++ text_at (get "modelId" d)

abbrev first_truthy : Option Json → Option Json → Option Json
first_truthy a b = if truthy a then a else b

abbrev provided : Option Json → Option Json → List Text
provided (some (str provider)) (some (str name)) = (provider ++ codes "/" ++ name) ∷ []
provided _ _ = []

abbrev nested : Option Json → List Text
nested (some (obj m)) =
    provided (get "provider" m) (first_truthy (get "model_name" m) (get "model" m))
nested _ = []

-- The candidates as the configuration writes them, in order.
pub raw_candidates : Fields → List Text
raw_candidates d = lists_of d ++ names_of d ++ nested (get "model" d)

-- The last loop.
pub normalized_from : (lower : Text → Text) → List Text → List Text → List Text
normalized_from lower acc [] = acc
normalized_from lower acc (c ∷ cs) =
    normalized_from lower (add_new acc (normalize_model_candidate lower c)) cs

abbrev or_default : List Text → List Text
or_default [] = default_model ∷ []
or_default (m ∷ ms) = m ∷ ms

-- `_extract_model_candidates`
unfoldable pub extract_model_candidates : (lower : Text → Text) → Json → List Text
unfolding raw_candidates normalized_from
extract_model_candidates lower (obj d) = or_default (normalized_from lower [] (raw_candidates d))
extract_model_candidates lower _ = default_model ∷ []

count-normalized_from :
    (lower : Text → Text) (v : Text) (acc cs : List Text)
    → count (text_eq v) acc ≤ 1
    → count (text_eq v) (normalized_from lower acc cs) ≤ 1
unfolding normalized_from
count-normalized_from lower v acc [] h = h
count-normalized_from lower v acc (c ∷ cs) h =
    count-normalized_from lower v (add_new acc (normalize_model_candidate lower c)) cs
      (count-add_new v (normalize_model_candidate lower c) acc h)

or_default-count :
    (v : Text) (ms : List Text) → count (text_eq v) ms ≤ 1 → count (text_eq v) (or_default ms) ≤ 1
or_default-count v [] h = ground arith
or_default-count v (m ∷ ms) h = h

or_default-length : (ms : List Text) → 1 ≤ length (or_default ms)
or_default-length [] = omega arith
or_default-length (m ∷ ms) = omega arith

-- There is a candidate, and none is listed twice.
pub model_candidates_lem :
    (lower : Text → Text) (config : Json) (v : Text)
    → (1 ≤ length (extract_model_candidates lower config))
      × (count (text_eq v) (extract_model_candidates lower config) ≤ 1)
unfolding extract_model_candidates
model_candidates_lem lower (obj d) v =
    let ms = normalized_from lower [] (raw_candidates d) in
    (
      or_default-length ms,
      or_default-count v ms (count-normalized_from lower v [] (raw_candidates d) (omega arith)),
    )
model_candidates_lem lower _ v = (omega arith, or_default-count v [] (omega arith))
