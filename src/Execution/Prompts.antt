-- ===== src/Execution/Prompts.antt =====
-- The prompts, references and fallback texts of a reply: `_build_system_prompt`, `_build_user_prompt`,
-- `_build_retrieval_refs` and `_build_fallback_reply` of backend/src/kuuna_backend/jobs/ingest.py.
use kuuna_support_agents.Common.{
  ℕ, ◌≡◌, refl, Bool, Option, none, some, List, [], ◌∷◌, ◌++◌, Text, String, codes, strip, is_space,
  is_empty, join, newline, take, length, map, if◌then◌else◌, ltb, ◌==◌, Bool-cases, inl, inr, true,
  false,
}
use kuuna_support_agents.Common.Json.{pos, Json, Fields, num, str, obj, field, end, put}

-- A hit of the retrieval, with its score rounded to four digits as it is written to JSON.
pub record RetrievalHit : Type 0 where
  pub source_type : Text
  pub source_scope : Text
  pub score : Json
  pub content : Text
  pub message_id : Option ℕ
  pub message_version_id : Option ℕ
  pub provider_message_id : Option Text
  pub knowledge_version_id : Option ℕ
  pub knowledge_doc_id : Option ℕ
  pub knowledge_doc_title : Option Text
  pub chunk_no : Option ℕ

-- `_INBOUND_CONFIRMATION_TEXT`
abbrev pub inbound_confirmation_text : Text
inbound_confirmation_text = codes "Danke, wir haben deine Nachricht erhalten."

-- `_DEFAULT_SYSTEM_PROMPT`
abbrev default_system_prompt : Text
default_system_prompt =
    codes "Du bist ein hilfreicher Support-Agent für eine WhatsApp-Gruppe. "
    ++ codes "Antworte präzise, freundlich und mit klaren nächsten Schritten."

abbrev prompt_or_default : Option Text → Text
prompt_or_default none = default_system_prompt
prompt_or_default (some []) = default_system_prompt
prompt_or_default (some (c ∷ t)) = c ∷ t

-- `_build_system_prompt`
pub build_system_prompt : Option Text → (allowed_tools : List Text) → Text
build_system_prompt prompt [] = strip (prompt_or_default prompt)
build_system_prompt prompt (t ∷ ts) =
    strip (prompt_or_default prompt)
    ++ newline
    ++ newline
    ++ codes "Aktivierte Tools für diese Gruppe: "
    ++ join (codes ", ") (t ∷ ts)
    ++ codes "."

-- `text.replace("\\n", " ")`
abbrev without_newlines : Text → Text
without_newlines = map (λ c. if c == 10 then 32 else c)

-- The text, or its first characters and an ellipsis.
abbrev shortened : ℕ → Text → Text
shortened n t = if ltb n (length t) then take n t ++ 8230 ∷ [] else t

abbrev context_line : RetrievalHit → Text
context_line hit =
    codes "- ["
    ++ hit.source_scope
    ++ codes "] "
    ++ shortened 220 (without_newlines (strip hit.content))

-- `_build_user_prompt`
pub build_user_prompt : (user_text : Text) → List RetrievalHit → Text
build_user_prompt user_text [] = user_text
build_user_prompt user_text (h ∷ hs) =
    codes "Nutzeranfrage:"
    ++ newline
    ++ user_text
    ++ newline
    ++ newline
    ++ join newline (codes "Kontext aus Chat/Knowledge:" ∷ map context_line (take 6 (h ∷ hs)))

abbrev with_text : String → Option Text → Fields → Fields
with_text k none d = d
with_text k (some t) d = put k (str t) d

abbrev with_id : (show : ℕ → Text) → String → Option ℕ → Fields → Fields
with_id show k none d = d
with_id show k (some i) d = put k (str (show i)) d

abbrev with_number : String → Option ℕ → Fields → Fields
with_number k none d = d
with_number k (some n) d = put k (num (pos n)) d

abbrev retrieval_ref : (show : ℕ → Text) → RetrievalHit → Json
retrieval_ref show hit = obj (
    with_number "chunk_no" hit.chunk_no (
      with_text "knowledge_doc_title" hit.knowledge_doc_title (
        with_id show "knowledge_doc_id" hit.knowledge_doc_id (
          with_id show "knowledge_version_id" hit.knowledge_version_id (
            with_id show "message_version_id" hit.message_version_id (
              with_id show "message_id" hit.message_id (
                with_text "provider_message_id" hit.provider_message_id (
                  field "source_type" (str hit.source_type) (
                    field "source_scope" (str hit.source_scope)
                      (field "score" hit.score end))))))))))

-- `_build_retrieval_refs`
pub build_retrieval_refs : (show : ℕ → Text) → List RetrievalHit → List Json
build_retrieval_refs show = map (retrieval_ref show)

-- `" ".join(text.split())` of what follows; `gap` tells that a blank was passed after a word.
pub join_words : (gap : Bool) → Text → Text
join_words gap [] = []
join_words gap (c ∷ s) =
    let after = join_words true s in
    let word = join_words false s in
    if is_space c then after else (if gap then 32 ∷ c ∷ word else c ∷ word)

-- Leading blanks are passed over first.
pub normalized_text : Text → Text
unfolding join_words
normalized_text [] = []
normalized_text (c ∷ s) =
    let rest = normalized_text s in if is_space c then rest else join_words false (c ∷ s)

abbrev fallback_for : (show_number : ℕ → Text) → Text → List RetrievalHit → Text
fallback_for show_number text [] = codes "Danke für deine Nachricht. Kurzantwort: " ++ text
fallback_for show_number text (h ∷ hs) =
    codes "Danke für deine Nachricht. "
    ++ codes "Ich habe "
    ++ show_number (length (h ∷ hs))
    ++ codes " passende Kontexteinträge berücksichtigt."
    ++ newline
    ++ newline
    ++ codes "Kurzantwort: "
    ++ text

-- `_build_fallback_reply`
pub build_fallback_reply : (show_number : ℕ → Text) → (user_text : Text) → List RetrievalHit → Text
unfolding normalized_text
build_fallback_reply show_number user_text hits =
    let text = normalized_text user_text in
    if is_empty text
    then inbound_confirmation_text
    else fallback_for show_number (shortened 240 text) hits

fallback_for-is_empty :
    (show_number : ℕ → Text) (text : Text) (hits : List RetrievalHit)
    → is_empty (fallback_for show_number text hits) ≡ false
fallback_for-is_empty show_number text [] = refl
fallback_for-is_empty show_number text (h ∷ hs) = refl

-- A fallback is never empty.
pub fallback_reply-is_empty :
    (show_number : ℕ → Text) (user_text : Text) (hits : List RetrievalHit)
    → is_empty (build_fallback_reply show_number user_text hits) ≡ false
unfolding build_fallback_reply
fallback_reply-is_empty show_number user_text hits =
    elim (Bool-cases (is_empty (normalized_text user_text))) [
      | inl e ↦ rw e refl
      | inr e ↦
          rw e (fallback_for-is_empty show_number (shortened 240 (normalized_text user_text)) hits)
    ]
