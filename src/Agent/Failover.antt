-- ===== src/Agent/Failover.antt =====
-- The order in which models are tried: services/runtime-agent/src/failover.py.
use kuuna_support_agents.Common.{
  ℕ, suc, ◌≤◌, List, [], ◌∷◌, Text, codes, strip, take, length, arith, count, text_eq, add_new,
  count-add_new, length-take, count-take,
}

-- `DEFAULT_MODEL`
abbrev pub default_model : Text
default_model = codes "local-placeholder-model"

-- The loop over the path.
unique_models : List Text → List Text → List Text
unique_models models [] = models
unique_models models (m ∷ ms) = unique_models (add_new models (strip m)) ms

abbrev pub or_list {ℓ} : {A : Type ℓ} → List A → List A → List A
or_list [] ys = ys
or_list (x ∷ xs) ys = x ∷ xs

-- `build_failover_plan`, of which `iter_model_path` yields the models.
unfoldable pub build_failover_plan : List Text → (max_hops : ℕ) → List Text
unfolding unique_models
build_failover_plan model_path max_hops =
    take (suc max_hops)
      (or_list (unique_models [] (or_list model_path (default_model ∷ []))) (default_model ∷ []))

count-unique_models :
    (v : Text) (models path : List Text)
    → count (text_eq v) models ≤ 1
    → count (text_eq v) (unique_models models path) ≤ 1
unfolding unique_models
count-unique_models v models [] h = h
count-unique_models v models (m ∷ ms) h =
    count-unique_models v (add_new models (strip m)) ms (count-add_new v (strip m) models h)

count-or_list_default :
    (v : Text) (models : List Text)
    → count (text_eq v) models ≤ 1
    → count (text_eq v) (or_list models (default_model ∷ [])) ≤ 1
count-or_list_default v [] h = ground arith
count-or_list_default v (m ∷ ms) h = h

length-or_list : (ms : List Text) → 1 ≤ length (or_list ms (default_model ∷ []))
length-or_list [] = omega arith
length-or_list (m ∷ ms) = omega arith

-- A plan has at least one model, at most one more than the hops, and no model twice.
pub failover_plan_bounds :
    (path : List Text) (max_hops : ℕ) (v : Text)
    → (1 ≤ length (build_failover_plan path max_hops))
      × (length (build_failover_plan path max_hops) ≤ suc max_hops)
      × (count (text_eq v) (build_failover_plan path max_hops) ≤ 1)
unfolding build_failover_plan
failover_plan_bounds path max_hops v =
    let models = unique_models [] (or_list path (default_model ∷ [])) in
    let plan = or_list models (default_model ∷ []) in
    let most = length-take (suc max_hops) plan in
    let least = length-or_list models in
    let once =
      count-or_list_default v models
        (count-unique_models v [] (or_list path (default_model ∷ [])) (omega arith)) in
    let kept = count-take (text_eq v) (suc max_hops) plan in (omega arith, omega arith, omega arith)
