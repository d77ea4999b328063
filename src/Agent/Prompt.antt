-- ===== src/Agent/Prompt.antt =====
-- The prompt: services/runtime-agent/src/prompt_builder.py.
use kuuna_support_agents.Common.{
  Option, none, some, List, [], ◌∷◌, ◌++◌, Text, codes, strip, join, newline,
}
use kuuna_support_agents.Common.Json.{Json, Fields, str, field, end}
use kuuna_support_agents.Agent.{Env}

pub record PromptAssembly : Type 0 where
  pub system_message : Text
  pub user_message : Text
  pub context_message : Option Text
  pub full_prompt : Text

abbrev default_system_prompt : Text
default_system_prompt =
    codes "You are a local runtime agent. Use the supplied context and tools carefully."

abbrev pub or_text : Option Text → Text → Text
or_text none d = d
or_text (some []) d = d
or_text (some (c ∷ t)) d = c ∷ t

-- `_serialize_context_value`
abbrev pub serialize_context_value : Env → Json → Text
serialize_context_value e (str t) = t
serialize_context_value e j = e.json_dumps j

abbrev context_lines : Env → Fields → List Text
context_lines e end = []
context_lines e (field k v d) =
    (codes "- " ++ codes k ++ codes ": " ++ serialize_context_value e v) ∷ context_lines e d

abbrev context_block : Env → Fields → Option Text
context_block e end = none
context_block e (field k v d) =
    some (join newline (codes "## Context" ∷ context_lines e (field k v d)))

abbrev some_part : Option Text → List Text → List Text
some_part none ps = ps
some_part (some t) ps = t ∷ ps

abbrev assemble : (system user : Text) → Option Text → PromptAssembly
assemble system user context = record {
  system_message = system;
  user_message = user;
  context_message = context;
  full_prompt = join (newline ++ newline) (
      (codes "## System" ++ newline ++ system)
      ∷ some_part context ((codes "## User" ++ newline ++ user) ∷ []));
}

-- `build_prompt`
pub build_prompt : Env → Option Text → Text → Fields → PromptAssembly
build_prompt e system_prompt user_prompt context =
    assemble (strip (or_text system_prompt default_system_prompt)) (strip user_prompt)
      (context_block e context)
