-- ===== src/Execution/Reply/Answers.antt =====
-- The text of a reply: `_generate_agent_reply` of backend/src/kuuna_backend/jobs/ingest.py.
use kuuna_support_agents.Common.{
  ◌≡◌, refl, sym, subst, Bool, true, false, Option, none, some, List, [], ◌∷◌, ◌++◌, Text, strip,
  is_empty, Bool-cases, inl, inr, if◌then◌else◌,
}
use kuuna_support_agents.Audit.{AuditEvent}
use kuuna_support_agents.Templates.Tools.{extract_allowed_tools}
use kuuna_support_agents.Execution.Candidates.{extract_model_candidates}
use kuuna_support_agents.Execution.Commands.{maybe_execute_tool_command, tool_command-is_empty}
use kuuna_support_agents.Execution.Prompts.{
  RetrievalHit, build_retrieval_refs, fallback_reply-is_empty,
}
use kuuna_support_agents.Execution.Remote.{
  RuntimeResult, IsAnswered, run_via_runtime_agent, run_via_runtime_agent-IsAnswered,
}
use kuuna_support_agents.Execution.Reply.{
  Env, ReplyInput, RuntimeRun, Generated, Completion, completed, integration_error, crashed,
  try_models, after_chat, fallback, after_remote, prompts, run_event, reply_of, execution_with_id,
  request_of, started_run, finished_run, without_command, with_hits, generate_agent_reply,
}

-- A reply, where there is one, has a text.
abbrev pub Says : Option Generated → Type 0
Says none = Unit
Says (some g) = is_empty g.reply.text ≡ false

abbrev Tells : Option (Option (Text × List Text)) → Type 0
Tells (some (some (text, path))) = is_empty text ≡ false
Tells _ = Unit

after_chat-Tells :
    (c : Completion) (attempted : List Text) (rest : Option (Option (Text × List Text)))
    → Tells rest
    → Tells (after_chat c attempted rest)
after_chat-Tells (completed t) attempted rest h = elim (Bool-cases (is_empty (strip t))) [
  | inl e ↦ rw e h
  | inr e ↦ subst (λ b. Tells (if b then rest else some (some (strip t, attempted)))) (sym e) e
]
after_chat-Tells integration_error attempted rest h = h
after_chat-Tells crashed attempted rest h = tt

try_models-Tells :
    (e : Env) (system user : Text) (attempted models : List Text)
    → Tells (try_models e system user attempted models)
unfolding try_models
try_models-Tells e system user attempted [] = tt
try_models-Tells e system user attempted (m ∷ ms) =
    let tried = attempted ++ m ∷ [] in
    after_chat-Tells (e.chat m system user) tried (try_models e system user tried ms)
      (try_models-Tells e system user tried ms)

fallback-Says :
    (e : Env) (i : ReplyInput) (hits : List RetrievalHit) (models allowed : List Text)
    (run : RuntimeRun × AuditEvent) (o : Option (Option (Text × List Text)))
    → Tells o
    → Says (fallback e i hits models allowed run o)
fallback-Says e i hits models allowed run none h = tt
fallback-Says e i hits models allowed run (some none) h =
    fallback_reply-is_empty e.show_number i.user_text hits
fallback-Says e i hits models allowed run (some (some (text, path))) h = h

configured-Tells :
    (b : Bool) (o : Option (Option (Text × List Text)))
    → Tells o
    → Tells (if b then o else some none)
configured-Tells true o h = h
configured-Tells false o h = tt

Says-if :
    (b : Bool) (x y : Option Generated)
    → (b ≡ true → Says x)
    → (b ≡ false → Says y)
    → Says (if b then x else y)
Says-if true x y h k = h refl
Says-if false x y h k = k refl

after_remote-Says :
    (e : Env) (i : ReplyInput) (hits : List RetrievalHit) (models allowed : List Text)
    (o : Option RuntimeResult)
    → IsAnswered o
    → Says (after_remote e i hits models allowed o)
unfolding after_remote
after_remote-Says e i hits models allowed none h = tt
after_remote-Says e i hits models allowed (some r) h =
    let run = finished_run e (started_run e i models allowed) r in
    let event = run_event e run r in
    let refs = build_retrieval_refs e.show hits in
    let (system, user) = prompts i hits allowed in
    let tried = try_models e system user [] models in
    let others = if e.openai_configured then tried else some none in
    Says-if r.success
      (some (
        reply_of (strip r.response_text) r.model_path refs allowed
          (some (execution_with_id e run r.execution)) (some (run, event))))
      (fallback e i hits models allowed (run, event) others) h
      (λ s.
        fallback-Says e i hits models allowed (run, event) others
          (configured-Tells e.openai_configured tried (try_models-Tells e system user [] models)))

without_command-Says :
    (e : Env) (i : ReplyInput) (hits : List RetrievalHit) (models allowed : List Text)
    (o : Option Text)
    → ((t : Text) → o ≡ some t → is_empty t ≡ false)
    → Says (without_command e i hits models allowed o)
without_command-Says e i hits models allowed (some t) h = h t refl
without_command-Says e i hits models allowed none h = elim (Bool-cases (is_empty i.user_text)) [
  | inl n ↦ rw n refl
  | inr n ↦ rw n (
      let request = request_of e i hits models allowed in
      after_remote-Says e i hits models allowed (run_via_runtime_agent e.post e.to_str request)
        (run_via_runtime_agent-IsAnswered e.post e.to_str request))
]

with_hits-Says :
    (e : Env) (i : ReplyInput) (o : Option (List RetrievalHit)) → Says (with_hits e i o)
with_hits-Says e i none = tt
with_hits-Says e i (some hits) =
    let allowed = extract_allowed_tools e.lower i.template_version.tools_config in
    let models = extract_model_candidates e.lower i.template_version.model_config in
    without_command-Says e i hits models allowed
      (maybe_execute_tool_command e.upper e.lower i.user_text allowed)
      (λ t q. tool_command-is_empty e.upper e.lower i.user_text allowed t q)

-- Whatever the runtime agent, the model service and the tools answer, a reply that is generated has a
-- text.
pub agent_reply-Says : (e : Env) (i : ReplyInput) → Says (generate_agent_reply e i)
unfolding generate_agent_reply
agent_reply-Says e i =
    with_hits-Says e i
      (if is_empty i.user_text then some [] else e.retrieve i.provider_group_id i.user_text)
