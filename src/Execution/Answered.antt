-- ===== src/Execution/Answered.antt =====
-- When an execution job answers: `process_inbound_message_job` of
-- backend/src/kuuna_backend/jobs/ingest.py.
use kuuna_support_agents.Common.{
  arith, ℕ, ◌≡◌, refl, sym, subst, ◌∙◌, inl, inr, true, false, Option, none, some, [], ◌∷◌, Text,
  is_empty, find?, find?_holds, find?-eq_none, ==_iff, ◌↔◌, any, ok,
}
use kuuna_support_agents.Common.Json.{get}
use kuuna_support_agents.Audit.{AuditEvent}
use kuuna_support_agents.Messages.{Message}
use kuuna_support_agents.Bindings.{
  GroupBinding, AgentInstance, TemplateVersion, has_version, is_stopped,
}
use kuuna_support_agents.Bindings
use kuuna_support_agents.Runtime.{ResolvedRuntimeTarget, resolve_runtime_target}
use kuuna_support_agents.Outbound.{OutboundIntent, marked, has_id, get_outbound_intent}
use kuuna_support_agents.Outbound.Creation.{create_outbound_intent_total}
use kuuna_support_agents.Execution.Reply.{
  Env, RuntimeRun, ReplyInput, AgentReply, Generated, generate_agent_reply,
}
use kuuna_support_agents.Execution.{
  Store, Ended, is_message, latest_version, extract_user_text, input_of, agent_of, accepts, add_run,
  put_intents, after_create, commit_reply, reply_payload, process_inbound_message_job,
}
use kuuna_support_agents.Execution.Effect.{Delivered, IsSent, marked-IsSent, execution_job_effect}

reply_payload_dispatch :
    (e : Env) (m : Message) (i : ReplyInput) (a : AgentInstance) (r : AgentReply)
    → get "_dispatch" (reply_payload e m i a r) ≡ none
unfolding get
reply_payload_dispatch e m i a r = refl

ready_job-IsSent :
    (e : Env) (message_id group : Text) (trace : Option Text) (db : Store) (i : ℕ) (m : Message)
    (t : ResolvedRuntimeTarget) (b : GroupBinding) (v : TemplateVersion) (a : AgentInstance) (c : ℕ)
    (image : Text) (g : Generated)
    → e.parse_uuid message_id ≡ some i
    → find? (is_message i group) db.messages.messages ≡ some m
    → resolve_runtime_target group true db.builds db.bindings ≡ ok t
    → find? (Bindings.has_id t.binding_id) db.bindings.bindings ≡ some b
    → find? (has_version t.template_version_id) db.bindings.template_versions ≡ some v
    → agent_of t.agent_instance_id db ≡ some a
    → is_stopped a.status ≡ false
    → t.image_ref ≡ some (c ∷ image)
    → generate_agent_reply e
        (input_of m trace t b v (c ∷ image) (extract_user_text (latest_version m db)))
      ≡ some g
    → accepts g.run ≡ true
    → any (has_id e.intent_id) db.bindings.intents ≡ false
    → IsSent e m.provider_group_id g.reply.text g.run db
        (process_inbound_message_job e message_id group trace db)
unfolding process_inbound_message_job commit_reply
ready_job-IsSent e message_id group trace db i m t b v a c image g hp hm ht hb hv ha hs hi hg fits
      new =
    let x = input_of m trace t b v (c ∷ image) (extract_user_text (latest_version m db)) in
    let payload = reply_payload e m x a g.reply in
    let (o, intents, made) =
      create_outbound_intent_total e.show e.now m.provider_group_id payload e.intent_id
        db.bindings.intents (reply_payload_dispatch e m x a g.reply) new in
    let replied : process_inbound_message_job e message_id group trace db
        ≡ commit_reply e g.run m.provider_group_id payload db =
      rw (process_inbound_message_job, hp, hm, ht, hb, hv, ha, hs, hi, hg) refl in
    let committed : commit_reply e g.run m.provider_group_id payload db
        ≡ after_create e g.run (marked o, intents) db =
      rw (commit_reply, fits, made) refl in
    subst (IsSent e m.provider_group_id g.reply.text g.run db) (sym (replied ∙ committed)) (
      marked-IsSent e g.run m.provider_group_id g.reply.text payload db o intents fits
        (unfold get in refl) made)

-- What the job wants: the message is of the group, the group resolves to a target whose rows are there,
-- whose agent is not stopped and whose image is not empty, a reply is made, and the row of its run, if it
-- has one, fits the columns.
abbrev pub IsAnswerable :
    Env → (message_id : ℕ) → (group : Text) → (trace : Option Text) → Store → Type 0
IsAnswerable e message_id group trace db =
    (m : Message) × (t : ResolvedRuntimeTarget) × (b : GroupBinding) × (v : TemplateVersion)
    × (a : AgentInstance) × (image : Text) × (g : Generated) × (find? (is_message message_id group)
          db.messages.messages
        ≡ some m)
    × (resolve_runtime_target group true db.builds db.bindings ≡ ok t)
    × (find? (Bindings.has_id t.binding_id) db.bindings.bindings ≡ some b)
    × (find? (has_version t.template_version_id) db.bindings.template_versions ≡ some v)
    × (agent_of t.agent_instance_id db ≡ some a)
    × (is_stopped a.status ≡ false)
    × (t.image_ref ≡ some image)
    × (is_empty image ≡ false)
    × (generate_agent_reply e
          (input_of m trace t b v image (extract_user_text (latest_version m db)))
        ≡ some g)
    × (accepts g.run ≡ true)

abbrev pub HasIntent : ℕ → Ended × Store → Type 0
HasIntent i r = (o : OutboundIntent) × (get_outbound_intent i r.1.bindings.intents ≡ some o)

Delivered-HasIntent :
    (e : Env) (o : OutboundIntent) (db : Store) (r : Ended × Store)
    → get_outbound_intent o.outbound_intent_id db.bindings.intents ≡ some o
    → Delivered e o db r
    → HasIntent o.outbound_intent_id r
Delivered-HasIntent e o db r found (inl (q, same)) =
    subst (HasIntent o.outbound_intent_id) (sym same) (o, found)
Delivered-HasIntent e o db r found (inr (message, f, after, q, m, s, there, same)) =
    subst (HasIntent o.outbound_intent_id) (sym same) (f, there)

sent-HasIntent :
    (e : Env) (group text : Text) (run : Option (RuntimeRun × AuditEvent)) (db : Store)
    (r : Ended × Store)
    → IsSent e group text run db r
    → HasIntent e.intent_id r
sent-HasIntent e group text run db r (o, after, (whole, found, _, _, _, _), t, a, d) =
    let same =
      (==_iff o.outbound_intent_id e.intent_id).0
        (find?_holds (has_id e.intent_id) after o found) in
    let here : get_outbound_intent o.outbound_intent_id after ≡ some o =
      subst (λ k. get_outbound_intent k after ≡ some o) (sym same) found in
    subst (λ k. HasIntent k r) same
      (Delivered-HasIntent e o (put_intents after (add_run run db)) r here d)

answerable-HasIntent :
    (e : Env) (message_id group : Text) (trace : Option Text) (db : Store) (i : ℕ)
    → any (has_id e.intent_id) db.bindings.intents ≡ false
    → e.parse_uuid message_id ≡ some i
    → IsAnswerable e i group trace db
    → HasIntent e.intent_id (process_inbound_message_job e message_id group trace db)
answerable-HasIntent e message_id group trace db i new hp
      (m, t, b, v, a, [], g, hm, ht, hb, hv, ha, hs, hi, hn, hg, fits) =
    absurd (ground arith)
answerable-HasIntent e message_id group trace db i new hp
      (m, t, b, v, a, c ∷ image, g, hm, ht, hb, hv, ha, hs, hi, hn, hg, fits) =
    sent-HasIntent e m.provider_group_id g.reply.text g.run db
      (process_inbound_message_job e message_id group trace db)
      (ready_job-IsSent e message_id group trace db i m t b v a c image g hp hm ht hb hv ha hs hi hg
        fits new)

-- Under a key that no intent has yet, the job creates an intent exactly if its message id is a UUID, the
-- message is of the group, the group resolves to a target whose rows are there, whose agent is not
-- stopped and whose image is not empty, a reply is made, and the row of its run fits the columns.
pub execution_job_answers :
    (e : Env) (message_id group : Text) (trace : Option Text) (db : Store)
    → any (has_id e.intent_id) db.bindings.intents ≡ false
    → HasIntent e.intent_id (process_inbound_message_job e message_id group trace db)
      ↔ ((i : ℕ) × (e.parse_uuid message_id ≡ some i) × IsAnswerable e i group trace db)
execution_job_answers e message_id group trace db new = (
  λ (o, found). elim (execution_job_effect e message_id group trace db) [
    | inl same ↦
        let absent = find?-eq_none (has_id e.intent_id) db.bindings.intents new in
        let there : get_outbound_intent e.intent_id db.bindings.intents ≡ some o =
          subst (λ s. get_outbound_intent e.intent_id s.bindings.intents ≡ some o) same found in
        absurd (ground (arith, sym absent ∙ there))
    | inr (i, p, (m, t, b, v, a, image, g, hm, ht, _, hb, hv, ha, hs, hi, hn, hg, says, sent)) ↦
        let (o', after, made, text, fits, d) = sent in
        (i, p, (m, t, b, v, a, image, g, hm, ht, hb, hv, ha, hs, hi, hn, hg, fits))
  ],
  λ (i, p, ready). answerable-HasIntent e message_id group trace db i new p ready,
)
