-- ===== src/Templates/Tools.antt =====
-- The tools that a template allows: `extract_allowed_tools` of
-- backend/src/kuuna_backend/domain/templates/tools.py. `str.lower` is a parameter.
use kuuna_support_agents.Common.{
  ◌≤◌, ◌≡◌, refl, sym, ◌∙◌, Bool, true, false, ◌&&◌, ◌||◌, not, Option, some, List, [], ◌∷◌, ◌++◌,
  Text, text_eq, contains, strip, is_empty, any, any-append, count, if◌then◌else◌, arith, add_new,
  add_new_lem, count-add_new, or_and_false, or_and_or,
}
use kuuna_support_agents.Common.Json.{Json, Items, bool, str, arr, obj, nil, cons, get}

-- The texts of a list.
abbrev texts_of : Items → List Text
texts_of nil = []
texts_of (cons (str t) js) = t ∷ texts_of js
texts_of (cons _ js) = texts_of js

abbrev listed : Option Json → List Text
listed (some (arr js)) = texts_of js
listed _ = []

-- `enabled is not False`, where a missing key counts as enabled.
abbrev is_enabled : Option Json → Bool
is_enabled (some (bool false)) = false
is_enabled _ = true

abbrev enabled_name : Option Json → Option Json → List Text
enabled_name (some (str (c ∷ t))) enabled = if is_enabled enabled then (c ∷ t) ∷ [] else []
enabled_name _ enabled = []

abbrev tool_names : Items → List Text
tool_names nil = []
tool_names (cons (str t) js) = t ∷ tool_names js
tool_names (cons (obj d) js) = enabled_name (get "name" d) (get "enabled" d) ++ tool_names js
tool_names (cons _ js) = tool_names js

abbrev tools : Option Json → List Text
tools (some (arr js)) = tool_names js
tools _ = []

-- The names that the configuration gives, in order, as they are written there.
pub candidates : Json → List Text
candidates (obj d) =
    listed (get "allowed_tools" d) ++ listed (get "allowedTools" d) ++ tools (get "tools" d)
candidates _ = []

-- The last loop: `candidate.strip().lower()`, once each.
normalize : (lower : Text → Text) → List Text → List Text → List Text
normalize lower acc [] = acc
normalize lower acc (c ∷ cs) = normalize lower (add_new acc (lower (strip c))) cs

unfoldable pub extract_allowed_tools : (lower : Text → Text) → (tools_config : Json) → List Text
unfolding candidates normalize
extract_allowed_tools lower tools_config = normalize lower [] (candidates tools_config)

normalize_lem :
    (lower : Text → Text) (v : Text) (acc cs : List Text)
    → contains v (normalize lower acc cs)
      ≡ (contains v acc || (not (is_empty v) && any (λ c. text_eq v (lower (strip c))) cs))
unfolding normalize
normalize_lem lower v acc [] = sym (or_and_false (contains v acc) (not (is_empty v)))
normalize_lem lower v acc (c ∷ cs) =
    normalize_lem lower v (add_new acc (lower (strip c))) cs
    ∙ rw (add_new_lem v (lower (strip c)) acc) (
        or_and_or (contains v acc) (not (is_empty v)) (text_eq v (lower (strip c)))
          (any (λ c. text_eq v (lower (strip c))) cs))

count-normalize :
    (lower : Text → Text) (v : Text) (acc cs : List Text)
    → count (text_eq v) acc ≤ 1
    → count (text_eq v) (normalize lower acc cs) ≤ 1
unfolding normalize
count-normalize lower v acc [] h = h
count-normalize lower v acc (c ∷ cs) h =
    count-normalize lower v (add_new acc (lower (strip c))) cs
      (count-add_new v (lower (strip c)) acc h)

-- Whether a configuration allows the tool `v`.
module _ (lower : Text → Text) (v : Text) where
  -- The text is the name, but for its case and the blanks around it.
  abbrev pub is_name : Text → Bool
  is_name t = text_eq v (lower (strip t))

  abbrev pub is_in_names : Items → Bool
  is_in_names nil = false
  is_in_names (cons (str t) js) = is_name t || is_in_names js
  is_in_names (cons _ js) = is_in_names js

  -- A tool has a name that is not empty, and is not switched off.
  abbrev pub is_tool : (name enabled : Option Json) → Bool
  is_tool (some (str t)) (some (bool false)) = false
  is_tool (some (str t)) _ = not (is_empty t) && is_name t
  is_tool _ enabled = false

  abbrev pub is_in_tools : Items → Bool
  is_in_tools nil = false
  is_in_tools (cons (str t) js) = is_name t || is_in_tools js
  is_in_tools (cons (obj d) js) = is_tool (get "name" d) (get "enabled" d) || is_in_tools js
  is_in_tools (cons _ js) = is_in_tools js

  abbrev pub is_list_with : (Items → Bool) → Option Json → Bool
  is_list_with p (some (arr js)) = p js
  is_list_with p _ = false

  abbrev pub is_allowed : Json → Bool
  is_allowed (obj d) =
      (is_list_with is_in_names (get "allowed_tools" d)
        || is_list_with is_in_names (get "allowedTools" d))
      || is_list_with is_in_tools (get "tools" d)
  is_allowed _ = false

  texts_of_lem : (js : Items) → any is_name (texts_of js) ≡ is_in_names js
  texts_of_lem nil = refl
  texts_of_lem (cons (str t) js) = rw (texts_of_lem js) refl
  texts_of_lem (cons _ js) = texts_of_lem js

  listed_lem : (o : Option Json) → any is_name (listed o) ≡ is_list_with is_in_names o
  listed_lem (some (arr js)) = texts_of_lem js
  listed_lem _ = refl

  enabled_name_lem :
      (name enabled : Option Json) → any is_name (enabled_name name enabled) ≡ is_tool name enabled
  enabled_name_lem (some (str [])) (some (bool false)) = refl
  enabled_name_lem (some (str [])) _ = refl
  enabled_name_lem (some (str (c ∷ t))) (some (bool false)) = refl
  enabled_name_lem (some (str (c ∷ t))) _ = ground arith
  enabled_name_lem _ enabled = refl

  tool_names_lem : (js : Items) → any is_name (tool_names js) ≡ is_in_tools js
  tool_names_lem nil = refl
  tool_names_lem (cons (str t) js) = rw (tool_names_lem js) refl
  tool_names_lem (cons (obj d) js) =
      any-append is_name (enabled_name (get "name" d) (get "enabled" d)) (tool_names js)
      ∙ rw (enabled_name_lem (get "name" d) (get "enabled" d), tool_names_lem js) refl
  tool_names_lem (cons _ js) = tool_names_lem js

  tools_lem : (o : Option Json) → any is_name (tools o) ≡ is_list_with is_in_tools o
  tools_lem (some (arr js)) = tool_names_lem js
  tools_lem _ = refl

  candidates_lem : (j : Json) → any is_name (candidates j) ≡ is_allowed j
  unfolding candidates
  candidates_lem (obj d) =
      any-append is_name (listed (get "allowed_tools" d) ++ listed (get "allowedTools" d))
        (tools (get "tools" d))
      ∙ rw
          (
            any-append is_name (listed (get "allowed_tools" d)) (listed (get "allowedTools" d)),
            listed_lem (get "allowed_tools" d),
            listed_lem (get "allowedTools" d),
            tools_lem (get "tools" d),
          )
          refl
  candidates_lem _ = refl

-- A name is allowed exactly if it is not empty and the configuration gives it, but for its case and the
-- blanks around it: as a text of one of the two lists of names or of the list of tools, or as the name of
-- a tool there that is not switched off. No name is listed twice.
pub allowed_tools_iff :
    (lower : Text → Text) (tools_config : Json) (v : Text)
    → (contains v (extract_allowed_tools lower tools_config)
        ≡ (not (is_empty v) && is_allowed lower v tools_config))
      × (count (text_eq v) (extract_allowed_tools lower tools_config) ≤ 1)
unfolding extract_allowed_tools contains
allowed_tools_iff lower tools_config v = (
  rw (sym (candidates_lem lower v tools_config))
      (normalize_lem lower v [] (candidates tools_config)),
  count-normalize lower v [] (candidates tools_config) (omega arith),
)
