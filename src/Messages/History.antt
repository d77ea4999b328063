-- ===== src/Messages/History.antt =====
-- The versions of the messages over a history of deliveries:
-- backend/src/kuuna_backend/domain/messages/ingest.py.
use kuuna_support_agents.Common.{
  or_false, ℕ, zero, suc, ◌≡◌, refl, ap, ◌∙◌, sym, true, false, Option, none, some, List, [], ◌∷◌,
  ◌++◌, Text, find?, update_where, if◌then◌else◌, ◌==◌, arith, Bool-cases, Option-cases, inl, inr,
  find?-update_where, find?-append_some, find?-append_none, find?-eq_none, find?_holds,
}
use mathlib.Core.Option
use kuuna_support_agents.Messages.{
  is_refused, Env, GatewayInboundEvent, Message, MessageVersion, Store, has_id, has_key, is_created,
  next_version, new_message, version_row, persist_inbound_event, persist_version,
}

-- The version numbers of one message, in the order of the table.
unfoldable pub version_numbers : ℕ → List MessageVersion → List ℕ
version_numbers i [] = []
version_numbers i (v ∷ vs) =
    let rest = version_numbers i vs in if v.message_id == i then v.version_no ∷ rest else rest

abbrev pub up_to : ℕ → List ℕ
up_to zero = []
up_to (suc n) = up_to n ++ suc n ∷ []

abbrev latest : Option Message → ℕ
latest none = 0
latest (some m) = m.latest_version_no

-- The message that a key finds is the one that its id finds, and the versions of every id are numbered
-- from 1 to the latest without a gap, in order; an id without a message has none.
pub record IsValid (db : Store) : Type 0 where
  pub agree :
      (g p : Text) (m : Message)
      → find? (has_key g p) db.messages ≡ some m
      → find? (has_id m.id) db.messages ≡ some m
  pub numbered :
      (i : ℕ)
      → version_numbers i db.message_versions ≡ up_to (latest (find? (has_id i) db.messages))

version_numbers_snoc :
    (i : ℕ) (vs : List MessageVersion) (v : MessageVersion)
    → version_numbers i (vs ++ v ∷ []) ≡ (
        if v.message_id == i
        then version_numbers i vs ++ v.version_no ∷ []
        else version_numbers i vs)
unfolding version_numbers
version_numbers_snoc i [] v = refl
version_numbers_snoc i (w ∷ vs) v = elim (Bool-cases (w.message_id == i)) [
  | inl e ↦ elim (Bool-cases (v.message_id == i)) [
    | inl d ↦ rw (e, d, version_numbers_snoc i vs v) (rw d)
    | inr d ↦ rw (e, d, version_numbers_snoc i vs v) (rw d)
  ]
  | inr e ↦ rw (e, version_numbers_snoc i vs v)
]

-- The search after the update of the message with the id `i`.
abbrev pub bumped : ℕ → Message → Message
bumped i x = if has_id i x then next_version x else x

find_id-bumped :
    (i j : ℕ) (ms : List Message)
    → find? (has_id j) (update_where (has_id i) next_version ms)
      ≡ Option.map (bumped i) (find? (has_id j) ms)
find_id-bumped i j = find?-update_where (has_id j) (has_id i) next_version (λ x. ground arith)

pub find_key-bumped :
    (i : ℕ) (g p : Text) (ms : List Message)
    → find? (has_key g p) (update_where (has_id i) next_version ms)
      ≡ Option.map (bumped i) (find? (has_key g p) ms)
find_key-bumped i g p =
    find?-update_where (has_key g p) (has_id i) next_version
      (λ x. elim (Bool-cases (has_id i x)) [ inl e ↦ rw e | inr e ↦ rw e ])

own_id : (x : Message) → has_id x.id x ≡ true
own_id x = ground arith

bumped_id : (i : ℕ) (x : Message) → (bumped i x).id ≡ x.id
bumped_id i x = ground arith

add-agree :
    (ms : List Message) (y : Message)
    → ((g p : Text) (m : Message)
        → find? (has_key g p) ms ≡ some m
        → find? (has_id m.id) ms ≡ some m)
    → find? (has_id y.id) ms ≡ none
    → (g p : Text) (m : Message) → find? (has_key g p) (ms ++ y ∷ []) ≡ some m
    → find? (has_id m.id) (ms ++ y ∷ []) ≡ some m
add-agree ms y agree fresh g p m h = elim (Option-cases (find? (has_key g p) ms)) [
  | inl missing ↦
      let same : y ≡ m = ground (arith, find?-append_none (has_key g p) ms y missing) in
      rw (sym same) (find?-append_none (has_id y.id) ms y fresh ∙ ground arith)
  | inr (x, e) ↦
      let same : x ≡ m = ground (arith, find?-append_some (has_key g p) ms x y e) in
      rw (sym same) (find?-append_some (has_id x.id) ms x y (agree g p x e))
]

bump-agree :
    (ms : List Message) (i : ℕ)
    → ((g p : Text) (m : Message)
        → find? (has_key g p) ms ≡ some m
        → find? (has_id m.id) ms ≡ some m)
    → (g p : Text) (m : Message)
    → find? (has_key g p) (update_where (has_id i) next_version ms) ≡ some m
    → find? (has_id m.id) (update_where (has_id i) next_version ms) ≡ some m
bump-agree ms i agree g p m h = elim (Option-cases (find? (has_key g p) ms)) [
  | inl missing ↦
      absurd (ground (arith, find_key-bumped i g p ms, ap (Option.map (bumped i)) missing))
  | inr (x, e) ↦
      let same : bumped i x ≡ m =
        ground (arith, find_key-bumped i g p ms, ap (Option.map (bumped i)) e) in
      rw (sym same, bumped_id i x)
        (find_id-bumped i x.id ms ∙ ap (Option.map (bumped i)) (agree g p x e))
]

add-numbered :
    (ms : List Message) (y : Message) (j : ℕ)
    → find? (has_id y.id) ms ≡ none
    → y.latest_version_no ≡ 1
    → up_to (latest (find? (has_id j) (ms ++ y ∷ []))) ≡ (
        if y.id == j
        then up_to (latest (find? (has_id j) ms)) ++ 1 ∷ []
        else up_to (latest (find? (has_id j) ms)))
add-numbered ms y j fresh one = elim (Bool-cases (y.id == j)) [
  | inl e ↦
      let same : y.id ≡ j = ground arith in
      rw e (
        rw (sym same)
          (rw (find?-append_none (has_id y.id) ms y fresh, fresh) (rw (own_id y) (rw one))))
  | inr e ↦ rw e (elim (Option-cases (find? (has_id j) ms)) [
    | inl missing ↦ rw (find?-append_none (has_id j) ms y missing, missing) (rw e)
    | inr (x, there) ↦ rw (find?-append_some (has_id j) ms x y there, there)
  ])
]

persist_new-IsValid :
    (v : Env) (e : GatewayInboundEvent) (db : Store)
    → IsValid db
    → find? (has_id v.message_id) db.messages ≡ none
    → IsValid (persist_version v e v.message_id 1 (db.messages ++ new_message v e ∷ []) db).1
unfolding persist_version
persist_new-IsValid v e db i fresh = record {
  agree = add-agree db.messages (new_message v e) i.agree fresh;
  numbered = λ j.
      version_numbers_snoc j db.message_versions (version_row v e v.message_id 1)
      ∙ rw (i.numbered j) (sym (add-numbered db.messages (new_message v e) j fresh refl));
}

bump-numbered :
    (ms : List Message) (m : Message) (j : ℕ)
    → find? (has_id m.id) ms ≡ some m
    → up_to (latest (find? (has_id j) (update_where (has_id m.id) next_version ms))) ≡ (
        if m.id == j
        then up_to (latest (find? (has_id j) ms)) ++ suc m.latest_version_no ∷ []
        else up_to (latest (find? (has_id j) ms)))
bump-numbered ms m j there = elim (Bool-cases (m.id == j)) [
  | inl e ↦
      let same : m.id ≡ j = ground arith in
      rw e (rw (sym same) (rw (find_id-bumped m.id m.id ms, there) (rw (own_id m))))
  | inr e ↦ rw e (elim (Option-cases (find? (has_id j) ms)) [
    | inl missing ↦ rw (find_id-bumped m.id j ms, missing)
    | inr (x, there') ↦
        let other : has_id m.id x ≡ false = ground (arith, find?_holds (has_id j) ms x there') in
        rw (find_id-bumped m.id j ms, there') (rw other)
  ])
]

persist_next-IsValid :
    (v : Env) (e : GatewayInboundEvent) (db : Store) (m : Message)
    → IsValid db
    → find? (has_id m.id) db.messages ≡ some m
    → IsValid
        (persist_version v e m.id
          (suc m.latest_version_no)
          (update_where (has_id m.id) next_version db.messages)
          db).1
unfolding persist_version
persist_next-IsValid v e db m i there = record {
  agree = bump-agree db.messages m.id i.agree;
  numbered = λ j.
      version_numbers_snoc j db.message_versions (version_row v e m.id (suc m.latest_version_no))
      ∙ rw (i.numbered j) (sym (bump-numbered db.messages m j there));
}

pub persist_inbound_event-IsValid :
    (v : Env) (e : GatewayInboundEvent) (db : Store)
    → IsValid db
    → IsValid (persist_inbound_event v e db).1
persist_inbound_event-IsValid v e db i =
    elim (Option-cases (find? (has_key e.provider_group_id e.provider_message_id) db.messages)) [
      | inl missing ↦ elim (Bool-cases (is_refused v e db)) [
        | inl taken ↦
            unfold persist_inbound_event in rw (missing, persist_inbound_event) (rw taken i)
        | inr free ↦
            let added =
              persist_new-IsValid v e db i
                (find?-eq_none (has_id v.message_id) db.messages (or_false _ _ free)) in
            unfold persist_inbound_event in rw (missing, persist_inbound_event) (rw free added)
      ]
      | inr (m, found) ↦ elim (Bool-cases (is_created e.event_type)) [
        | inl new ↦ unfold persist_inbound_event in rw (found, persist_inbound_event) (rw new i)
        | inr old ↦
            let bumped_ =
              persist_next-IsValid v e db m i
                (i.agree e.provider_group_id e.provider_message_id m found) in
            unfold persist_inbound_event in rw (found, persist_inbound_event) (rw old bumped_)
      ]
    ]

pub record Delivery : Type 0 where
  pub env : Env
  pub event : GatewayInboundEvent

-- The tables after a sequence of deliveries.
abbrev pub ingest_all : List Delivery → Store → Store
ingest_all [] db = db
ingest_all (d ∷ ds) db = ingest_all ds (persist_inbound_event d.env d.event db).1

-- Over every sequence of deliveries, events of a known message, redeliveries and broken constraints
-- included, the versions of each message stay numbered from 1 to its latest without a gap or a
-- repetition, in the order of arrival, and a key and its id keep finding the same message.
pub messages_history-IsValid :
    (ds : List Delivery) (db : Store) → IsValid db → IsValid (ingest_all ds db)
messages_history-IsValid [] db i = i
messages_history-IsValid (d ∷ ds) db i =
    messages_history-IsValid ds (persist_inbound_event d.env d.event db).1
      (persist_inbound_event-IsValid d.env d.event db i)
