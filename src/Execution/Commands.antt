-- ===== src/Execution/Commands.antt =====
-- Tool commands in a message: `_maybe_execute_tool_command` and the handlers of
-- backend/src/kuuna_backend/jobs/ingest.py. `str.upper` and `str.lower` are parameters.
use kuuna_support_agents.Common.{
  ℕ, ◌≡◌, refl, sym, ap, from_some, Bool, false, ◌&&◌, ◌||◌, not, Option, none, some, List, [], ◌∷◌,
  ◌++◌, Text, codes, strip, lstrip, is_space, is_empty, contains, text_eq, starts_with, drop, any,
  newline, if◌then◌else◌, leb, ◌==◌, arith, Bool-cases, inl, inr,
}

-- `[a-zA-Z0-9_-]`
abbrev is_name_code : ℕ → Bool
is_name_code c =
    leb 97 c && leb c 122 || leb 65 c && leb c 90 || leb 48 c && leb c 57 || c == 95 || c == 45

-- The longest prefix of name characters, and what follows it.
pub split_name : Text → Text × Text
split_name [] = ([], [])
split_name (c ∷ s) =
    let rest = split_name s in if is_name_code c then (c ∷ rest.0, rest.1) else ([], c ∷ s)

abbrev is_newline : ℕ → Bool
is_newline c = c == 10

-- `(?:\s+(.*))?$` after the name: the rest starts with a blank, and the input has no line break.
abbrev input_after : Text → Option Text
input_after [] = some []
input_after (c ∷ s) =
    if is_space c && not (any is_newline (lstrip s)) then some (lstrip s) else none

abbrev with_input : Text → Option Text → Option (Text × Text)
with_input name none = none
with_input name (some input) = some (name, input)

abbrev with_name : Text × Text → Option (Text × Text)
with_name ([], rest) = none
with_name (c ∷ name, rest) = with_input (c ∷ name) (input_after rest)

abbrev after_keyword : Text → Option (Text × Text)
after_keyword [] = none
after_keyword (c ∷ s) = if is_space c then with_name (split_name (lstrip s)) else none

-- `_TOOL_COMMAND_PATTERN.match`, for a text without blanks at its end: the two groups.
pub tool_command : Text → Option (Text × Text)
unfolding split_name
tool_command text =
    let s = lstrip text in if starts_with s (codes "/tool") then after_keyword (drop 5 s) else none

pub data LocalTool : Type 0 where
  echo uppercase : LocalTool

-- `LOCAL_TOOL_HANDLERS.get(name)`
pub local_tool : Text → Option LocalTool
local_tool name =
    if text_eq name (codes "echo")
    then some echo
    else (if text_eq name (codes "uppercase") then some uppercase else none)

abbrev or_nothing : Text → Text
or_nothing [] = codes "(leer)"
or_nothing (c ∷ t) = c ∷ t

-- `_tool_echo` and `_tool_uppercase`, which do not raise.
pub run_tool : (upper : Text → Text) → LocalTool → Text → Text
run_tool upper echo value = or_nothing value
run_tool upper uppercase value = upper value

abbrev answer : (upper : Text → Text) → Text → Option LocalTool → Text → Text
answer upper name none input =
    codes "Tool `" ++ name ++ codes "` ist konfiguriert, aber aktuell nicht implementiert."
answer upper name (some tool) input =
    codes "Tool `" ++ name ++ codes "` Ergebnis:" ++ newline ++ run_tool upper tool input

abbrev pub refusal : Text → Text
refusal name =
    codes "Tool `"
    ++ name
    ++ codes "` ist für diese Gruppe nicht freigeschaltet. "
    ++ codes "Bitte wende dich an das Team für die Template-Konfiguration."

abbrev command_answer : (upper lower : Text → Text) → List Text → Option (Text × Text) → Option Text
command_answer upper lower allowed none = none
command_answer upper lower allowed (some (written, input)) =
    let name = lower written in
    some (
      if not (contains name allowed)
      then refusal name
      else answer upper name (local_tool name) (strip input))

-- `_maybe_execute_tool_command`
unfoldable pub maybe_execute_tool_command :
    (upper lower : Text → Text) → (user_text : Text) → (allowed_tools : List Text) → Option Text
unfolding tool_command run_tool local_tool
maybe_execute_tool_command upper lower user_text allowed =
    if is_empty user_text then none else command_answer upper lower allowed (tool_command user_text)

answer-is_empty :
    (upper : Text → Text) (name : Text) (tool : Option LocalTool) (input : Text)
    → is_empty (answer upper name tool input) ≡ false
answer-is_empty upper name none input = refl
answer-is_empty upper name (some tool) input = refl

command_answer-is_empty :
    (upper lower : Text → Text) (allowed : List Text) (command : Option (Text × Text)) (text : Text)
    → command_answer upper lower allowed command ≡ some text
    → is_empty text ≡ false
command_answer-is_empty upper lower allowed none text h = absurd (ground arith)
command_answer-is_empty upper lower allowed (some (written, input)) text h =
    elim (Bool-cases (contains (lower written) allowed)) [
      | inl k ↦
          let a : some (answer upper (lower written) (local_tool (lower written)) (strip input))
              ≡ some text =
            rw k at h in
          rw (sym (ap (from_some []) a))
            (answer-is_empty upper (lower written) (local_tool (lower written)) (strip input))
      | inr k ↦
          let a : some (refusal (lower written)) ≡ some text = rw k at h in
          rw (sym (ap (from_some []) a)) refl
    ]

-- The answer to a tool command is not empty.
pub tool_command-is_empty :
    (upper lower : Text → Text) (user_text : Text) (allowed : List Text) (text : Text)
    → maybe_execute_tool_command upper lower user_text allowed ≡ some text
    → is_empty text ≡ false
unfolding maybe_execute_tool_command
tool_command-is_empty upper lower user_text allowed text h =
    elim (Bool-cases (is_empty user_text)) [
      | inl n ↦ let a : none ≡ some text = rw n at h in absurd (ground arith)
      | inr n ↦
          let a : command_answer upper lower allowed (tool_command user_text) ≡ some text =
            rw n at h in
          command_answer-is_empty upper lower allowed (tool_command user_text) text a
    ]
