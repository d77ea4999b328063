-- ===== src/Outbound/Tests.antt =====
-- The outbound services and the dispatch job at concrete intents.
use kuuna_support_agents.Common.{
  false, ℕ, ◌+◌, ◌≤◌, ◌≡◌, refl, true, some, [], ◌∷◌, codes, length, Text,
}
use kuuna_support_agents.Common.Json.{Fields, obj, str, field, end, get, put, update, set_default}
use kuuna_support_agents.Outbound.{
  marked, create_outbound_intent, OutboundStatus, OutboundIntent, merge_dispatch_metadata,
  get_outbound_intent,
}
use kuuna_support_agents.Outbound.Metadata.{HasDispatch}
use kuuna_support_agents.Outbound.Creation.{IsNew, create_outbound_intent_effect}
use kuuna_support_agents.Outbound.Dispatch.{
  Env, World, Reply, response, Body, text_body, dispatch_outbound_intent_job,
}
use kuuna_support_agents.Outbound.Dispatch.Runs.{
  Dispatched, IsDelivered, runs, dispatch_posts_once, dispatch_delivers_once,
}
use kuuna_support_agents.Outbound.Dispatch.Schedule.{Settled, run_with_retries, dispatch_settles}

abbrev history : Fields
history = field "last_status" (str (codes "pending")) end

abbrev payload : Fields
payload = field "text" (str (codes "hello")) (field "_dispatch" (obj history) end)

abbrev update_one : Fields
update_one = field "last_status" (str (codes "sent")) end

abbrev merged : Fields
merged = field "text" (str (codes "hello")) (field "_dispatch" (obj update_one) end)

payload-HasDispatch : HasDispatch payload
unfolding get
payload-HasDispatch = (history, refl)

merged_lem : merge_dispatch_metadata payload update_one ≡ some merged
unfolding merge_dispatch_metadata get put update
merged_lem = refl

abbrev intent : OutboundStatus → OutboundIntent
intent s = record {
  outbound_intent_id = 5;
  provider_group_id = codes "group@g.us";
  status = s;
  attempt_count = 0;
  payload = payload;
}

abbrev world : OutboundStatus → World
world s = record { intents = intent s ∷ []; posted = [] }

-- A gateway that is busy.
abbrev busy : Env
busy = record {
  now = codes "12:00";
  post = λ p. Reply.response 503 (Body.text_body (codes "busy"));
  raises_for_status = λ c. true;
  status_message = λ c. codes "Service Unavailable";
  retry = some 30;
}

abbrev print : ℕ → Text
print n = n ∷ []

dispatch_posts_once_example :
    Dispatched busy 5
      (world OutboundStatus.pending)
      (intent OutboundStatus.pending)
      (dispatch_outbound_intent_job busy print (some 5) (world OutboundStatus.pending))
dispatch_posts_once_example =
    dispatch_posts_once busy print 5 (world OutboundStatus.pending) (intent OutboundStatus.pending)
      refl refl payload-HasDispatch

abbrev ready : Env
ready = record busy { post = λ p. response 200 (text_body []); raises_for_status = λ c. false }

dispatch_delivers_once_example :
    IsDelivered 5
      (world OutboundStatus.pending)
      (runs (ready ∷ busy ∷ ready ∷ []) print 5 (world OutboundStatus.pending))
dispatch_delivers_once_example =
    dispatch_delivers_once ready (busy ∷ ready ∷ []) print 5 (world OutboundStatus.pending)
      (intent OutboundStatus.pending) refl refl payload-HasDispatch
      (λ p. (200, text_body [], refl, refl))

dispatch_settles_example :
    let w = run_with_retries (λ n. busy) print 5 3 (world OutboundStatus.pending) in
    (q : OutboundIntent) × (get_outbound_intent 5 w.1.intents ≡ some q)
    × Settled q.status
    × (q.attempt_count ≤ 0 + 4)
    × (length w.1.posted + 0 ≡ 0 + q.attempt_count)
dispatch_settles_example =
    dispatch_settles (λ n. busy) print 5 3 (world OutboundStatus.pending)
      (intent OutboundStatus.pending) refl refl payload-HasDispatch

abbrev created_payload : Fields
created_payload = field "outbound_intent_id" (str (5 ∷ [])) (
    field "provider_group_id" (str (codes "g")) (
      field "_dispatch"
        (obj
          (field "created_at" (str (codes "9")) (field "last_status" (str (codes "pending")) end)))
        end))

abbrev created : OutboundIntent
created = record {
  outbound_intent_id = 5;
  provider_group_id = codes "g";
  status = OutboundStatus.pending;
  attempt_count = 0;
  payload = created_payload;
}

created_lem :
    create_outbound_intent print (codes "9") (codes "g") end 5 [] ≡ (marked created, created ∷ [])
unfolding create_outbound_intent merge_dispatch_metadata set_default get put update
created_lem = refl

create_outbound_intent_effect_example : IsNew (codes "g") 5 [] created (created ∷ [])
create_outbound_intent_effect_example =
    create_outbound_intent_effect print (codes "9") (codes "g") end 5 [] (created ∷ []) created
      created_lem
