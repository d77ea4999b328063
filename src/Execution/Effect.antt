-- ===== src/Execution/Effect.antt =====
-- What an execution job leaves: `process_inbound_message_job` of backend/src/kuuna_backend/jobs/ingest.py.
use kuuna_support_agents.Common.{
  ℕ, ◌≡◌, refl, sym, ap, subst, ◌∙◌, ◌⊎◌, inl, inr, true, false, Option, none, some, List, [], ◌∷◌,
  Text, is_empty, find?, Bool-cases, find?_holds, ==_iff, Result, ok, err,
}
use kuuna_support_agents.Common.Json.{Fields, get}
use kuuna_support_agents.Common.Json
use kuuna_support_agents.Audit.{AuditEvent}
use kuuna_support_agents.Messages.{Message}
use kuuna_support_agents.Bindings.{
  GroupBinding, AgentInstance, TemplateVersion, has_version, is_stopped,
}
use kuuna_support_agents.Bindings
use kuuna_support_agents.Runtime.{
  ResolvedRuntimeTarget, RuntimeResolutionError, resolve_runtime_target,
}
use kuuna_support_agents.Runtime.Target.{IsTarget, resolve_runtime_target_effect}
use kuuna_support_agents.Outbound.{
  OutboundIntent, OutboundStatus, Marked, missing, raised, marked, has_id, get_outbound_intent,
  create_outbound_intent, mark_outbound_intent_failed,
}
use kuuna_support_agents.Outbound.Metadata.{HasDispatch}
use kuuna_support_agents.Outbound.Creation.{
  IsNew, create_outbound_intent_effect, create_outbound_intent_payload, mark_failed_total,
}
use kuuna_support_agents.Execution.Reply.{Env, RuntimeRun, Generated, generate_agent_reply}
use kuuna_support_agents.Execution.Reply.Answers.{Says, agent_reply-Says}
use kuuna_support_agents.Execution.{
  Store, Ended, done, failed, is_message, latest_version, extract_user_text, input_of, agent_of,
  accepts, add_run, put_intents, add_job, enqueue_report, enqueue, after_create, commit_reply,
  reply_payload, with_reply, answer, unless_stopped, with_rows, with_target, with_message,
  with_uuid, process_inbound_message_job,
}

-- The intent is handed to the queue, or it is marked as failed where the queue does not take it.
abbrev pub Delivered : Env → OutboundIntent → Store → Ended × Store → Type 0
Delivered e o db r =
    ((e.queue_error ≡ none) × (r ≡ (done, add_job o.outbound_intent_id db)))
    ⊎ ((message : Text) × (f : OutboundIntent) × (after : List OutboundIntent) × (e.queue_error
          ≡ some message)
        × (mark_outbound_intent_failed (enqueue_report e message) o.outbound_intent_id
              db.bindings.intents
            ≡ (marked f, after))
        × (f.status ≡ OutboundStatus.failed)
        × (get_outbound_intent o.outbound_intent_id after ≡ some f)
        × (r ≡ (done, put_intents after db)))

-- One new intent of the group, which carries this text, and the run of the reply are stored.
abbrev pub IsSent :
    Env → (group text : Text) → Option (RuntimeRun × AuditEvent) → Store → Ended × Store → Type 0
IsSent e group text run db r =
    (o : OutboundIntent) × (after : List OutboundIntent) × IsNew group e.intent_id
      db.bindings.intents o after
    × (get "text" o.payload ≡ some (Json.str text))
    × (accepts run ≡ true)
    × Delivered e o (put_intents after (add_run run db)) r

enqueue-Delivered :
    (e : Env) (i : ℕ) (o : OutboundIntent) (db : Store) (q : Option Text)
    → e.queue_error ≡ q
    → o.outbound_intent_id ≡ i
    → get_outbound_intent i db.bindings.intents ≡ some o
    → HasDispatch o.payload
    → Delivered e o db (enqueue e o.outbound_intent_id q db)
unfolding enqueue
enqueue-Delivered e i o db none h n found d = inl (h, refl)
enqueue-Delivered e i o db (some message) h n found d =
    let here : get_outbound_intent o.outbound_intent_id db.bindings.intents ≡ some o =
      subst (λ k. get_outbound_intent k db.bindings.intents ≡ some o) (sym n) found in
    let (f, after, m, s, _, there) =
      mark_failed_total (enqueue_report e message) o.outbound_intent_id db.bindings.intents o here
        d in
    inr (message, f, after, h, m, s, there, rw m refl)

pub marked-IsSent :
    (e : Env) (run : Option (RuntimeRun × AuditEvent)) (group text : Text) (payload : Fields)
    (db : Store) (o : OutboundIntent) (intents : List OutboundIntent)
    → accepts run ≡ true
    → get "text" payload ≡ some (Json.str text)
    → create_outbound_intent e.show e.now group payload e.intent_id db.bindings.intents
      ≡ (marked o, intents)
    → IsSent e group text run db (after_create e run (marked o, intents) db)
marked-IsSent e run group text payload db o intents a t h =
    let new =
      create_outbound_intent_effect e.show e.now group payload e.intent_id db.bindings.intents
        intents o h in
    let (whole, found, of_group, pending, tries, dispatch) = new in
    let kept =
      create_outbound_intent_payload e.show e.now group payload e.intent_id db.bindings.intents
        intents o "text" refl refl refl h in
    let same =
      (==_iff o.outbound_intent_id e.intent_id).0
        (find?_holds (has_id e.intent_id) intents o found) in
    (
      o,
      intents,
      new,
      kept ∙ t,
      a,
      enqueue-Delivered e e.intent_id o (put_intents intents (add_run run db)) e.queue_error refl
          same found dispatch,
    )

-- A call stores nothing, or a reply is sent.
abbrev Sends :
    Env → (group text : Text) → Option (RuntimeRun × AuditEvent) → Store → Ended × Store → Type 0
Sends e group text run db r = (r ≡ (failed, db)) ⊎ IsSent e group text run db r

after_create-Sends :
    (e : Env) (run : Option (RuntimeRun × AuditEvent)) (group text : Text) (payload : Fields)
    (db : Store) (c : Marked × List OutboundIntent)
    → accepts run ≡ true
    → get "text" payload ≡ some (Json.str text)
    → create_outbound_intent e.show e.now group payload e.intent_id db.bindings.intents ≡ c
    → Sends e group text run db (after_create e run c db)
after_create-Sends e run group text payload db (missing, intents) a t h = inl refl
after_create-Sends e run group text payload db (raised, intents) a t h = inl refl
after_create-Sends e run group text payload db (marked o, intents) a t h =
    inr (marked-IsSent e run group text payload db o intents a t h)

commit_reply-Sends :
    (e : Env) (run : Option (RuntimeRun × AuditEvent)) (group text : Text) (payload : Fields)
    (db : Store)
    → get "text" payload ≡ some (Json.str text)
    → Sends e group text run db (commit_reply e run group payload db)
unfolding commit_reply
commit_reply-Sends e run group text payload db t = elim (Bool-cases (accepts run)) [
  | inr a ↦ rw a (inl refl)
  | inl a ↦
      let c = create_outbound_intent e.show e.now group payload e.intent_id db.bindings.intents in
      let same : commit_reply e run group payload db ≡ after_create e run c db = rw a refl in
      subst (Sends e group text run db) (sym same)
        (after_create-Sends e run group text payload db c a t refl)
]

-- What stands behind a reply: the message, an active binding of its group with a version and an agent
-- that is not stopped, an image from a build that succeeded, and a text that is not empty.
abbrev pub Answers :
    Env → (message_id : ℕ) → (group : Text) → (trace : Option Text) → Store → Ended × Store → Type 0
Answers e message_id group trace db r =
    (m : Message) × (t : ResolvedRuntimeTarget) × (b : GroupBinding) × (v : TemplateVersion)
    × (a : AgentInstance) × (image : Text) × (g : Generated) × (find? (is_message message_id group)
          db.messages.messages
        ≡ some m)
    × (resolve_runtime_target group true db.builds db.bindings ≡ ok t)
    × IsTarget group true db.builds db.bindings t
    × (find? (Bindings.has_id t.binding_id) db.bindings.bindings ≡ some b)
    × (find? (has_version t.template_version_id) db.bindings.template_versions ≡ some v)
    × (agent_of t.agent_instance_id db ≡ some a)
    × (is_stopped a.status ≡ false)
    × (t.image_ref ≡ some image)
    × (is_empty image ≡ false)
    × (generate_agent_reply e
          (input_of m trace t b v image (extract_user_text (latest_version m db)))
        ≡ some g)
    × (is_empty g.reply.text ≡ false)
    × IsSent e m.provider_group_id g.reply.text g.run db r

module _ (e : Env) (message_id : ℕ) (group : Text) (trace : Option Text) (db : Store) where
  abbrev Does : Ended × Store → Type 0
  Does r = (r.1 ≡ db) ⊎ Answers e message_id group trace db r

  with_reply-Does :
      (m : Message) (t : ResolvedRuntimeTarget) (b : GroupBinding) (v : TemplateVersion)
      (a : AgentInstance) (image : Text) (o : Option Generated)
      → find? (is_message message_id group) db.messages.messages ≡ some m
      → resolve_runtime_target group true db.builds db.bindings ≡ ok t
      → find? (Bindings.has_id t.binding_id) db.bindings.bindings ≡ some b
      → find? (has_version t.template_version_id) db.bindings.template_versions ≡ some v
      → agent_of t.agent_instance_id db ≡ some a
      → is_stopped a.status ≡ false
      → t.image_ref ≡ some image
      → is_empty image ≡ false
      → generate_agent_reply e
          (input_of m trace t b v image (extract_user_text (latest_version m db)))
        ≡ o
      → Does (
          with_reply e m
            (input_of m trace t b v image (extract_user_text (latest_version m db)))
            a
            o
            db)
  with_reply-Does m t b v a image none hm ht hb hv ha hs hi hn hg = inl refl
  with_reply-Does m t b v a image (some g) hm ht hb hv ha hs hi hn hg =
      let i = input_of m trace t b v image (extract_user_text (latest_version m db)) in
      let says : is_empty g.reply.text ≡ false = subst Says hg (agent_reply-Says e i) in
      elim (commit_reply-Sends e g.run m.provider_group_id g.reply.text
        (reply_payload e m i a g.reply) db (unfold get in refl)) [
          | inl q ↦ inl (ap (λ r. r.1) q)
          | inr sent ↦ inr (
            m,
            t,
            b,
            v,
            a,
            image,
            g,
            hm,
            ht,
            resolve_runtime_target_effect group true db.builds db.bindings t ht,
            hb,
            hv,
            ha,
            hs,
            hi,
            hn,
            hg,
            says,
            sent,
          )
        ]

  answer-Does :
      (m : Message) (t : ResolvedRuntimeTarget) (b : GroupBinding) (v : TemplateVersion)
      (a : AgentInstance) (o : Option Text)
      → find? (is_message message_id group) db.messages.messages ≡ some m
      → resolve_runtime_target group true db.builds db.bindings ≡ ok t
      → find? (Bindings.has_id t.binding_id) db.bindings.bindings ≡ some b
      → find? (has_version t.template_version_id) db.bindings.template_versions ≡ some v
      → agent_of t.agent_instance_id db ≡ some a
      → is_stopped a.status ≡ false
      → t.image_ref ≡ o
      → Does (answer e m trace t b v a o db)
  answer-Does m t b v a none hm ht hb hv ha hs hi = inl refl
  answer-Does m t b v a (some []) hm ht hb hv ha hs hi = inl refl
  answer-Does m t b v a (some (c ∷ image)) hm ht hb hv ha hs hi =
      with_reply-Does m t b v a (c ∷ image)
        (generate_agent_reply e
          (input_of m trace t b v (c ∷ image) (extract_user_text (latest_version m db))))
        hm ht hb hv ha hs hi refl refl

  unless_stopped-Does :
      (m : Message) (t : ResolvedRuntimeTarget) (b : GroupBinding) (v : TemplateVersion)
      (o : Option AgentInstance)
      → find? (is_message message_id group) db.messages.messages ≡ some m
      → resolve_runtime_target group true db.builds db.bindings ≡ ok t
      → find? (Bindings.has_id t.binding_id) db.bindings.bindings ≡ some b
      → find? (has_version t.template_version_id) db.bindings.template_versions ≡ some v
      → agent_of t.agent_instance_id db ≡ o
      → Does (unless_stopped e m trace t b v o db)
  unless_stopped-Does m t b v none hm ht hb hv ha = inl refl
  unless_stopped-Does m t b v (some a) hm ht hb hv ha = elim (Bool-cases (is_stopped a.status)) [
    | inl s ↦ rw s (inl refl)
    | inr s ↦ rw s (answer-Does m t b v a t.image_ref hm ht hb hv ha s refl)
  ]

  with_rows-Does :
      (m : Message) (t : ResolvedRuntimeTarget) (ob : Option GroupBinding)
      (ov : Option TemplateVersion)
      → find? (is_message message_id group) db.messages.messages ≡ some m
      → resolve_runtime_target group true db.builds db.bindings ≡ ok t
      → find? (Bindings.has_id t.binding_id) db.bindings.bindings ≡ ob
      → find? (has_version t.template_version_id) db.bindings.template_versions ≡ ov
      → Does (with_rows e m trace t ob ov (agent_of t.agent_instance_id db) db)
  with_rows-Does m t none ov hm ht hb hv = inl refl
  with_rows-Does m t (some b) none hm ht hb hv = inl refl
  with_rows-Does m t (some b) (some v) hm ht hb hv =
      unless_stopped-Does m t b v (agent_of t.agent_instance_id db) hm ht hb hv refl

  with_target-Does :
      (m : Message) (o : Result RuntimeResolutionError ResolvedRuntimeTarget)
      → find? (is_message message_id group) db.messages.messages ≡ some m
      → resolve_runtime_target group true db.builds db.bindings ≡ o
      → Does (with_target e m trace o db)
  with_target-Does m (err x) hm ht = inl refl
  with_target-Does m (ok t) hm ht =
      with_rows-Does m t (find? (Bindings.has_id t.binding_id) db.bindings.bindings)
        (find? (has_version t.template_version_id) db.bindings.template_versions) hm ht refl refl

  with_message-Does :
      (o : Option Message)
      → find? (is_message message_id group) db.messages.messages ≡ o
      → Does (with_message e group trace o db)
  with_message-Does none hm = inl refl
  with_message-Does (some m) hm =
      with_target-Does m (resolve_runtime_target group true db.builds db.bindings) hm refl

with_uuid-cases :
    (e : Env) (group : Text) (trace : Option Text) (db : Store) (o : Option ℕ)
    → ((with_uuid e group trace o db).1 ≡ db)
      ⊎ ((i : ℕ) × (o ≡ some i) × Answers e i group trace db (with_uuid e group trace o db))
with_uuid-cases e group trace db none = inl refl
with_uuid-cases e group trace db (some i) =
    elim (with_message-Does e i group trace db (find? (is_message i group) db.messages.messages)
      refl) [ inl q ↦ inl q | inr answers ↦ inr (i, refl, answers) ]

pub execution_job_effect :
    (e : Env) (message_id group : Text) (trace : Option Text) (db : Store)
    → ((process_inbound_message_job e message_id group trace db).1 ≡ db)
      ⊎ ((i : ℕ) × (e.parse_uuid message_id ≡ some i)
          × Answers e i group trace db (process_inbound_message_job e message_id group trace db))
unfolding process_inbound_message_job
execution_job_effect e message_id group trace db =
    with_uuid-cases e group trace db (e.parse_uuid message_id)
