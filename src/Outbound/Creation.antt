-- ===== src/Outbound/Creation.antt =====
-- A created intent: `create_outbound_intent` of backend/src/kuuna_backend/domain/outbound/service.py.
use kuuna_support_agents.Common.{
  find?_holds, find?-update_where, if◌then◌else◌, ℕ, ◌≡◌, refl, ap, ◌∙◌, sym, String, str_eq, false,
  update_where, Option, none, some, List, [], ◌∷◌, ◌++◌, Text, codes, any, arith, Bool-cases, inl,
  inr, find?-append_none, find?-eq_none, subst,
}
use mathlib.Core.Option
use kuuna_support_agents.Common.Json.{
  Json, Fields, str, field, end, get, set_default, get-set_default,
}
use kuuna_support_agents.Outbound.{
  OutboundIntent, OutboundStatus, Report, updated, failed_updates, mark_outbound_intent,
  mark_outbound_intent_failed, raised, marked, has_id, get_outbound_intent, merge_dispatch_metadata,
  insert_intent, new_intent, create_outbound_intent,
}
use kuuna_support_agents.Outbound.Metadata.{
  HasDispatch, merge-HasDispatch, merge_effect, merge_total, merge_absent,
}

-- The intent is at the end of the table and found there, pending, without an attempt, and ready for
-- the dispatch job.
abbrev pub IsNew : Text → ℕ → List OutboundIntent → OutboundIntent → List OutboundIntent → Type 0
IsNew group i db o after =
    (after ≡ db ++ o ∷ [])
    × (get_outbound_intent i after ≡ some o)
    × (o.provider_group_id ≡ group)
    × (o.status ≡ OutboundStatus.pending)
    × (o.attempt_count ≡ 0)
    × HasDispatch o.payload

insert_effect :
    (i : ℕ) (g : Text) (p : Option Fields) (db after : List OutboundIntent) (o : OutboundIntent)
    → ((q : Fields) → p ≡ some q → HasDispatch q)
    → insert_intent i g p db ≡ (marked o, after)
    → IsNew g i db o after
insert_effect i g none db after o has h = absurd (ground (arith, ap (λ r. r.0) h))
insert_effect i g (some q) db after o has h = elim (Bool-cases (any (has_id i) db)) [
  | inl taken ↦
      let bad : insert_intent i g (some q) db ≡ (raised, db) = rw taken in
      absurd (ground (arith, ap (λ r. r.0) (sym bad ∙ h)))
  | inr free ↦
      let n = new_intent i g q in
      let made : insert_intent i g (some q) db ≡ (marked n, db ++ n ∷ []) = rw free in
      let same : n ≡ o = ground (arith, ap (λ r. r.0) (sym made ∙ h)) in
      let whole : db ++ n ∷ [] ≡ after = ap (λ r. r.1) (sym made ∙ h) in
      let found : get_outbound_intent i (db ++ n ∷ []) ≡ some n =
        find?-append_none (has_id i) db n (find?-eq_none (has_id i) db free) ∙ ground arith in
      subst (λ t. IsNew g i db t after) same
        (subst (λ a. IsNew g i db n a) whole (refl, found, refl, refl, refl, has q refl))
]

-- A creation that does not raise has appended one intent, which is found under its id, is pending,
-- belongs to the group, has no attempt counted, and has a dict under `_dispatch`.
pub create_outbound_intent_effect :
    (show : ℕ → Text) (now group : Text) (payload : Fields) (i : ℕ) (db after : List OutboundIntent)
    (o : OutboundIntent)
    → create_outbound_intent show now group payload i db ≡ (marked o, after)
    → IsNew group i db o after
unfolding create_outbound_intent
create_outbound_intent_effect show now group payload i db after o h =
    let normalized =
      set_default "provider_group_id" (str group)
        (set_default "outbound_intent_id" (str (show i)) payload) in
    let updates = field "created_at" (str now) (field "last_status" (str (codes "pending")) end) in
    insert_effect i group (merge_dispatch_metadata normalized updates) db after o
      (λ q e. merge-HasDispatch normalized updates q e) h

insert_payload :
    (i : ℕ) (g : Text) (p : Option Fields) (db after : List OutboundIntent) (o : OutboundIntent)
    (key : String) (j : Option Json)
    → ((q : Fields) → p ≡ some q → get key q ≡ j)
    → insert_intent i g p db ≡ (marked o, after)
    → get key o.payload ≡ j
insert_payload i g none db after o key j has h = absurd (ground (arith, ap (λ r. r.0) h))
insert_payload i g (some q) db after o key j has h = elim (Bool-cases (any (has_id i) db)) [
  | inl taken ↦
      let bad : insert_intent i g (some q) db ≡ (raised, db) = rw taken in
      absurd (ground (arith, ap (λ r. r.0) (sym bad ∙ h)))
  | inr free ↦
      let n = new_intent i g q in
      let made : insert_intent i g (some q) db ≡ (marked n, db ++ n ∷ []) = rw free in
      let same : n ≡ o = ground (arith, ap (λ r. r.0) (sym made ∙ h)) in
      subst (λ t. get key t.payload ≡ j) same (has q refl)
]

-- The intent keeps what the payload gives under any other key.
pub create_outbound_intent_payload :
    (show : ℕ → Text) (now group : Text) (payload : Fields) (i : ℕ) (db after : List OutboundIntent)
    (o : OutboundIntent) (key : String)
    → str_eq "_dispatch" key ≡ false
    → str_eq "outbound_intent_id" key ≡ false
    → str_eq "provider_group_id" key ≡ false
    → create_outbound_intent show now group payload i db ≡ (marked o, after)
    → get key o.payload ≡ get key payload
unfolding create_outbound_intent
create_outbound_intent_payload show now group payload i db after o key d u p h =
    let first = set_default "outbound_intent_id" (str (show i)) payload in
    let normalized = set_default "provider_group_id" (str group) first in
    let updates = field "created_at" (str now) (field "last_status" (str (codes "pending")) end) in
    insert_payload i group (merge_dispatch_metadata normalized updates) db after o key
      (get key payload)
      (λ q e.
        let (old, new, _, _, _, kept) = merge_effect normalized updates q key key e d in
        kept
        ∙ get-set_default "provider_group_id" key (str group) first p
        ∙ get-set_default "outbound_intent_id" key (str (show i)) payload u)
      h

-- An intent that is there with a dict under `_dispatch` can be marked as failed.
pub mark_failed_total :
    (r : Report) (i : ℕ) (db : List OutboundIntent) (o : OutboundIntent)
    → get_outbound_intent i db ≡ some o
    → HasDispatch o.payload
    → (f : OutboundIntent) × (after : List OutboundIntent) × (mark_outbound_intent_failed r i db
        ≡ (marked f, after))
      × (f.status ≡ OutboundStatus.failed)
      × (f.outbound_intent_id ≡ o.outbound_intent_id)
      × (get_outbound_intent i after ≡ some f)
mark_failed_total r i db o h d =
    let (q, m) = merge_total o.payload (failed_updates r) d in
    let same : o.outbound_intent_id ≡ i = ground (arith, find?_holds (has_id i) db o h) in
    let f = updated OutboundStatus.failed 0 q o in
    (
      f,
      update_where (has_id o.outbound_intent_id) (updated OutboundStatus.failed 0 q) db,
      unfold mark_outbound_intent in rw (h, mark_outbound_intent) (rw m),
      refl,
      refl,
      rw same (
          find?-update_where (has_id i) (has_id i) (updated OutboundStatus.failed 0 q)
            (λ x. ground arith) db
          ∙ ap (Option.map (λ x. if has_id i x then updated OutboundStatus.failed 0 q x else x)) h
          ∙ ap some (ground arith)),
    )

-- A creation under a new key, of a payload without `_dispatch`, does not raise.
pub create_outbound_intent_total :
    (show : ℕ → Text) (now group : Text) (payload : Fields) (i : ℕ) (db : List OutboundIntent)
    → get "_dispatch" payload ≡ none
    → any (has_id i) db ≡ false
    → (o : OutboundIntent) × (after : List OutboundIntent) × (create_outbound_intent show now group
          payload i db
        ≡ (marked o, after))
unfolding create_outbound_intent
create_outbound_intent_total show now group payload i db d new =
    let first = set_default "outbound_intent_id" (str (show i)) payload in
    let normalized = set_default "provider_group_id" (str group) first in
    let updates = field "created_at" (str now) (field "last_status" (str (codes "pending")) end) in
    let absent : get "_dispatch" normalized ≡ none =
      get-set_default "provider_group_id" "_dispatch" (str group) first refl
      ∙ get-set_default "outbound_intent_id" "_dispatch" (str (show i)) payload refl
      ∙ d in
    let (q, m) = merge_absent normalized updates absent in
    (new_intent i group q, db ++ new_intent i group q ∷ [], rw (m, new) refl)
