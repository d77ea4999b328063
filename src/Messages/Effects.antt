-- ===== src/Messages/Effects.antt =====
-- What deliveries leave: backend/src/kuuna_backend/domain/messages/ingest.py and trigger.py.
use kuuna_support_agents.Common.{
  ℕ, suc, ◌+◌, ◌≡◌, ◌≢◌, ◌↔◌, ◌⊎◌, refl, ap, ◌∙◌, sym, Bool, true, false, not, none, some, List, [],
  ◌∷◌, ◌++◌, Text, find?, any, if◌then◌else◌, arith, Bool-cases, Option-cases, find?-append_some,
  find?-append_none, inl, inr, update_where, starts_with, lstrip, is_empty, length, length-append,
  subst, text_eq_refl,
}
use mathlib.Core.Option
use kuuna_support_agents.Messages.{
  is_refused, Env, GatewayInboundEvent, Message, MessageEventType, Store, Media, persisted, deduped,
  raised, has_id, has_key, is_created, is_deletion, next_version, new_message, is_executed,
  TriggerDecision, persist_inbound_event, persist_version, evaluate_trigger, trigger_prefixes,
  text_or_empty, is_text, media_rows,
}
use kuuna_support_agents.Messages.History.{Delivery, ingest_all, bumped, find_key-bumped}

-- The tables have a message of the key.
abbrev IsKnown : Text → Text → Store → Type 0
IsKnown g p db = (m : Message) × (find? (has_key g p) db.messages ≡ some m)

persist_new-eq :
    (v : Env) (e : GatewayInboundEvent) (db : Store)
    → find? (has_key e.provider_group_id e.provider_message_id) db.messages ≡ none
    → persist_inbound_event v e db ≡ (
        if is_refused v e db
        then (raised, db)
        else persist_version v e v.message_id 1 (db.messages ++ new_message v e ∷ []) db)
unfolding persist_inbound_event
persist_new-eq v e db missing = rw (missing, persist_inbound_event)

persist_known-eq :
    (v : Env) (e : GatewayInboundEvent) (db : Store) (m : Message)
    → find? (has_key e.provider_group_id e.provider_message_id) db.messages ≡ some m
    → persist_inbound_event v e db ≡ (
        if is_created e.event_type
        then (deduped, db)
        else persist_version v e m.id
            (suc m.latest_version_no)
            (update_where (has_id m.id) next_version db.messages)
            db)
unfolding persist_inbound_event
persist_known-eq v e db m found = rw (found, persist_inbound_event)

-- The two ways in which a delivery changes the messages, and that it may leave them.
data Change (v : Env) (e : GatewayInboundEvent) (db : Store) : List Message → Type 0 where
  kept : Change v e db db.messages
  added : Change v e db (db.messages ++ new_message v e ∷ [])
  bumped_row : (m : Message) → Change v e db (update_where (has_id m.id) next_version db.messages)

persist-Change :
    (v : Env) (e : GatewayInboundEvent) (db : Store)
    → Change v e db (persist_inbound_event v e db).1.messages
persist-Change v e db =
    elim (Option-cases (find? (has_key e.provider_group_id e.provider_message_id) db.messages)) [
      | inl missing ↦ rw (persist_new-eq v e db missing) (elim (Bool-cases (is_refused v e db)) [
        | inl taken ↦ rw taken kept
        | inr free ↦ rw free (unfold persist_version in added)
      ])
      | inr (m, found) ↦
          rw (persist_known-eq v e db m found) (elim (Bool-cases (is_created e.event_type)) [
            | inl new ↦ rw new kept
            | inr old ↦ rw old (unfold persist_version in bumped_row m)
          ])
    ]

Change-IsKnown :
    (v : Env) (e : GatewayInboundEvent) (db : Store) (g p : Text) (ms : List Message)
    → Change v e db ms
    → IsKnown g p db
    → (m : Message) × (find? (has_key g p) ms ≡ some m)
Change-IsKnown v e db g p ms kept (m, found) = (m, found)
Change-IsKnown v e db g p ms added (m, found) =
    (m, find?-append_some (has_key g p) db.messages m (new_message v e) found)
Change-IsKnown v e db g p ms (bumped_row n) (m, found) =
    (_, find_key-bumped n.id g p db.messages ∙ ap (Option.map (bumped n.id)) found)

ingest_all-IsKnown :
    (ds : List Delivery) (db : Store) (g p : Text) → IsKnown g p db → IsKnown g p (ingest_all ds db)
ingest_all-IsKnown [] db g p k = k
ingest_all-IsKnown (d ∷ ds) db g p k =
    ingest_all-IsKnown ds (persist_inbound_event d.env d.event db).1 g p
      (Change-IsKnown d.env d.event db g p _ (persist-Change d.env d.event db) k)

persist_inbound_event-IsKnown :
    (v : Env) (e : GatewayInboundEvent) (db : Store)
    → (persist_inbound_event v e db).0 ≢ raised
    → IsKnown e.provider_group_id e.provider_message_id (persist_inbound_event v e db).1
persist_inbound_event-IsKnown v e db ne =
    elim (Option-cases (find? (has_key e.provider_group_id e.provider_message_id) db.messages)) [
      | inl missing ↦ elim (Bool-cases (is_refused v e db)) [
        | inl taken ↦
            let refused : persist_inbound_event v e db ≡ (raised, db) =
              persist_new-eq v e db missing ∙ rw taken in
            absurd (ne (ap (λ r. r.0) refused))
        | inr free ↦ rw (persist_new-eq v e db missing) (
            rw free (
              new_message v e,
              unfold persist_version in
                  find?-append_none (has_key e.provider_group_id e.provider_message_id) db.messages
                    (new_message v e) missing
                  ∙ rw (text_eq_refl e.provider_group_id, text_eq_refl e.provider_message_id),
            ))
      ]
      | inr (m, found) ↦
          Change-IsKnown v e db e.provider_group_id e.provider_message_id _ (persist-Change v e db)
            (m, found)
    ]

-- Once a delivery has not raised, a created event of the same group and message id is recognised as a
-- duplicate, however many other deliveries came in between: it changes no table and enqueues nothing.
pub created_once :
    (v w : Env) (e f : GatewayInboundEvent) (ds : List Delivery) (db : Store)
    → (persist_inbound_event v e db).0 ≢ raised
    → f.provider_group_id ≡ e.provider_group_id
    → f.provider_message_id ≡ e.provider_message_id
    → f.event_type ≡ MessageEventType.created
    → let after = ingest_all ds (persist_inbound_event v e db).1 in
      persist_inbound_event w f after ≡ (deduped, after)
created_once v w e f ds db ne g p c =
    let after = ingest_all ds (persist_inbound_event v e db).1 in
    let (m, found) =
      ingest_all-IsKnown ds (persist_inbound_event v e db).1 e.provider_group_id
        e.provider_message_id (persist_inbound_event-IsKnown v e db ne) in
    persist_known-eq w f after m (rw (g, p) found) ∙ rw c

-- The event asks for the agent: it mentions someone, replies to a message, or starts with a prefix.
abbrev pub AsksForAgent : GatewayInboundEvent → Type 0
AsksForAgent e =
    (e.mentions ≢ [])
    ⊎ (is_text e.reply_to_provider_message_id ≡ true)
    ⊎ (any (starts_with (lstrip (text_or_empty e.text))) trigger_prefixes ≡ true)

not_empty_iff : (xs : List Text) → (not (is_empty xs) ≡ true) ↔ (xs ≢ [])
not_empty_iff [] = (λ h. absurd (ground arith), λ h. absurd (h refl))
not_empty_iff (x ∷ xs) = (λ h e. absurd (ground arith), λ h. refl)

evaluate_trigger_iff :
    (e : GatewayInboundEvent) → ((evaluate_trigger e).should_execute ≡ true) ↔ AsksForAgent e
unfolding evaluate_trigger
evaluate_trigger_iff e =
    let mentioned = not_empty_iff e.mentions in
    elim (Bool-cases (not (is_empty e.mentions))) [
      | inl a ↦ rw a (λ h. inl (mentioned.0 a), λ h. refl)
      | inr a ↦ rw a (elim (Bool-cases (is_text e.reply_to_provider_message_id)) [
        | inl b ↦ rw b (λ h. inr (inl refl), λ h. refl)
        | inr b ↦
            rw b
              (elim (Bool-cases
                (any (starts_with (lstrip (text_or_empty e.text))) trigger_prefixes)) [
                  | inl c ↦ rw c (λ h. inr (inr refl), λ h. refl)
                  | inr c ↦ rw c (
                    λ h. absurd (ground arith),
                    λ h. elim h [
                      | inl m ↦ absurd (ground (arith, mentioned.1 m))
                      | inr (inl r) ↦ absurd (ground arith)
                      | inr (inr p) ↦ absurd (ground arith)
                    ],
                  )
                ])
      ])
    ]

is_executed_iff :
    (v : Env) (e : GatewayInboundEvent)
    → (is_executed v e (evaluate_trigger e) ≡ true)
      ↔ (AsksForAgent e × (is_deletion e.event_type ≡ false) × (v.accepts_execution ≡ true))
is_executed_iff v e = ground (arith, evaluate_trigger_iff e)

length-media_rows :
    (v : Env) (e : GatewayInboundEvent) (i n : ℕ) (ms : List Media)
    → length (media_rows v e i n ms) ≡ length ms
unfolding media_rows
length-media_rows v e i n [] = refl
length-media_rows v e i n (m ∷ ms) = ap suc (length-media_rows v e i (suc n) ms)

-- What a stored event adds: one version, its media, and at most one execution job.
abbrev pub Added : Env → GatewayInboundEvent → Store → Bool → Store → Type 0
Added v e db executed after =
    ((executed ≡ true)
      ↔ (AsksForAgent e × (is_deletion e.event_type ≡ false) × (v.accepts_execution ≡ true)))
    × (length after.message_versions ≡ length db.message_versions + 1)
    × (length after.media_assets ≡ length db.media_assets + length e.media)
    × (length after.execution_jobs ≡ length db.execution_jobs + (if executed then 1 else 0))

length_added :
    (b : Bool) (i : ℕ) (xs : List ℕ)
    → length (if b then xs ++ i ∷ [] else xs) ≡ length xs + (if b then 1 else 0)
length_added true i xs = length-append {0} xs (i ∷ [])
length_added false i xs = omega arith

persist_version-Added :
    (v : Env) (e : GatewayInboundEvent) (i n : ℕ) (ms : List Message) (db : Store)
    → Added v e db (is_executed v e (evaluate_trigger e)) (persist_version v e i n ms db).1
unfolding persist_version
persist_version-Added v e i n ms db = (
  is_executed_iff v e,
  length-append {0} db.message_versions _,
  length-append {0} db.media_assets _
      ∙ ap (λ k. length db.media_assets + k) (length-media_rows v e i 0 e.media),
  length_added (is_executed v e (evaluate_trigger e)) i db.execution_jobs,
)

persist_version-eq :
    (v : Env) (e : GatewayInboundEvent) (i n : ℕ) (ms : List Message) (db : Store)
    → (persist_version v e i n ms db).0
      ≡ persisted (evaluate_trigger e) (is_executed v e (evaluate_trigger e))
unfolding persist_version
persist_version-eq v e i n ms db = refl

stored_effect :
    (v : Env) (e : GatewayInboundEvent) (db : Store) (d : TriggerDecision) (executed : Bool)
    (i n : ℕ) (ms : List Message)
    → persist_inbound_event v e db ≡ persist_version v e i n ms db
    → (persist_inbound_event v e db).0 ≡ persisted d executed
    → Added v e db executed (persist_inbound_event v e db).1
stored_effect v e db d executed i n ms eq h =
    let same : is_executed v e (evaluate_trigger e) ≡ executed =
      ground (arith, sym h ∙ ap (λ r. r.0) eq ∙ persist_version-eq v e i n ms db) in
    subst (λ r. Added v e db executed r.1) (sym eq)
      (subst (λ b. Added v e db b (persist_version v e i n ms db).1) same
        (persist_version-Added v e i n ms db))

-- An event that is reported as stored has added one version and one asset for each of its media. Its
-- report says that a job was enqueued exactly if the event mentions someone, replies to any message, not
-- only to one of the agent, or starts with a prefix, is no deletion, and the queue accepted the job; one
-- execution job is then in the queue, and none otherwise. Whether the group is bound plays no part.
pub persisted_effect :
    (v : Env) (e : GatewayInboundEvent) (db : Store) (d : TriggerDecision) (executed : Bool)
    → (persist_inbound_event v e db).0 ≡ persisted d executed
    → Added v e db executed (persist_inbound_event v e db).1
persisted_effect v e db d executed h =
    elim (Option-cases (find? (has_key e.provider_group_id e.provider_message_id) db.messages)) [
      | inl missing ↦
          let eq = persist_new-eq v e db missing in
          elim (Bool-cases (is_refused v e db)) [
            | inl taken ↦ absurd (ground (arith, ap (λ r. r.0) eq))
            | inr free ↦
                let all_eq : persist_inbound_event v e db
                    ≡ persist_version v e v.message_id 1 (db.messages ++ new_message v e ∷ []) db =
                  eq ∙ rw free in
                stored_effect v e db d executed _ _ _ all_eq h
          ]
      | inr (m, found) ↦
          let eq = persist_known-eq v e db m found in
          elim (Bool-cases (is_created e.event_type)) [
            | inl new ↦ absurd (ground (arith, ap (λ r. r.0) eq))
            | inr old ↦
                let all_eq : persist_inbound_event v e db
                    ≡ persist_version v e m.id (suc m.latest_version_no)
                        (update_where (has_id m.id) next_version db.messages) db =
                  eq ∙ rw old in
                stored_effect v e db d executed _ _ _ all_eq h
          ]
    ]
