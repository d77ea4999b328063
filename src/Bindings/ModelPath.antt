-- ===== src/Bindings/ModelPath.antt =====
-- The path of models of a template version: `_build_model_path` and `_build_model_path_from_config` of
-- backend/src/kuuna_backend/domain/bindings/service.py.
use kuuna_support_agents.Common.{
  Bool, not, Option, some, List, [], ◌∷◌, ◌++◌, Text, is_empty, filter, if◌then◌else◌, ◌==◌,
}
use kuuna_support_agents.Common.Json.{Json, Items, Fields, truthy, str, arr, obj, nil, cons, get}

abbrev pub non_empty_str : Option Json → List Text
non_empty_str (some (str (c ∷ t))) = (c ∷ t) ∷ []
non_empty_str _ = []

-- `_build_model_path_from_config`
pub build_model_path_from_config : Fields → List Text
build_model_path_from_config config =
    let model_name =
      if truthy (get "model_name" config) then get "model_name" config else get "model_id" config in
    non_empty_str (get "provider" config)
    ++ (if not (is_empty (non_empty_str (get "model" config)))
        then non_empty_str (get "model" config)
        else non_empty_str model_name)

abbrev pub strings_of : Items → List Text
strings_of nil = []
strings_of (cons j js) = non_empty_str (some j) ++ strings_of js

-- `text.split("/")`
pub split_slash : Text → List Text
split_slash [] = [] ∷ []
split_slash (c ∷ s) =
    let rest = split_slash s in
    if c == 47 then [] ∷ rest else (elim rest [ [] ↦ (c ∷ []) ∷ [] | w ∷ ws ↦ (c ∷ w) ∷ ws ])

abbrev is_word : Text → Bool
is_word t = not (is_empty t)

abbrev or_else_list : List Text → List Text → List Text
or_else_list [] ys = ys
or_else_list (x ∷ xs) ys = x ∷ xs

abbrev nested_path : Option Json → Fields → List Text
nested_path (some (obj nested)) config =
    or_else_list (build_model_path_from_config nested) (build_model_path_from_config config)
nested_path _ config = build_model_path_from_config config

abbrev direct_path : Option Json → Fields → List Text
direct_path (some (arr items)) config = strings_of items
direct_path (some (str (c ∷ t))) config = filter is_word (split_slash (c ∷ t))
direct_path _ config = nested_path (get "model" config) config

-- `_build_model_path`
pub build_model_path : Json → List Text
unfolding build_model_path_from_config split_slash
build_model_path (obj config) = direct_path (get "model_path" config) config
build_model_path _ = []
