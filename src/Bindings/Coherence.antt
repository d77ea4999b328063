-- ===== src/Bindings/Coherence.antt =====
-- One active binding of a group, and the agent of each binding:
-- backend/src/kuuna_backend/domain/bindings/service.py.
use kuuna_support_agents.Common.{
  ℕ, ◌≤◌, ◌≡◌, refl, ap, ◌∙◌, sym, Bool, true, false, ◌&&◌, ◌||◌, Option, none, some, List, [], ◌∷◌,
  ◌++◌, Text, text_eq_iff, find?, any, count, update_where, if◌then◌else◌, ◌==◌, arith, or_false,
  Bool-cases, Option-cases, inl, inr, find?-append_none, find?-append_other, find?-eq_none,
  find?-update_where, find?_holds, any-eq_false_of_find?, count-update_where_mono,
  count-snoc_le_one, count-eq_zero_of_any,
}
use mathlib.Core.Option
use kuuna_support_agents.Outbound.{
  OutboundIntent, Marked, missing, raised, marked, create_outbound_intent,
}
use kuuna_support_agents.Bindings.{
  Store, Env, GroupBinding, AgentInstance, TemplateVersion, BindingStatus, RuntimeStatus, is_active,
  is_inactive, is_healthy, is_stopped, has_id, of_binding, is_active_of, set_status, set_runtime,
  upsert_agent_instance, new_binding, has_agent_id, has_version, commit_binding, write_binding,
  create_binding, unbound, unbind, activation_payload,
}
use kuuna_support_agents.Models.{is_published}

-- A binding is active with a healthy agent, or inactive with a stopped one; there is no other.
abbrev pub is_pair : Option GroupBinding → Option AgentInstance → Bool
is_pair none none = true
is_pair none (some a) = false
is_pair (some b) none = false
is_pair (some b) (some a) =
    is_active b.status && is_healthy a.status || is_inactive b.status && is_stopped a.status

pub record IsCoherent (db : Store) : Type 0 where
  pub single : (g : Text) → count (is_active_of g) db.bindings ≤ 1
  pub paired :
      (i : ℕ) → is_pair (find? (has_id i) db.bindings) (find? (of_binding i) db.agents) ≡ true

abbrev stop : ℕ → AgentInstance → AgentInstance
stop i a = if of_binding i a then set_runtime RuntimeStatus.stopped a else a

abbrev deactivate : ℕ → GroupBinding → GroupBinding
deactivate i b = if has_id i b then set_status BindingStatus.inactive b else b

find-deactivate :
    (i j : ℕ) (bs : List GroupBinding)
    → find? (has_id j) (update_where (has_id i) (set_status BindingStatus.inactive) bs)
      ≡ Option.map (deactivate i) (find? (has_id j) bs)
find-deactivate i j =
    find?-update_where (has_id j) (has_id i) (set_status BindingStatus.inactive) (λ x. ground arith)

find-stop :
    (i j : ℕ) (agents : List AgentInstance)
    → find? (of_binding j) (update_where (of_binding i) (set_runtime RuntimeStatus.stopped) agents)
      ≡ Option.map (stop i) (find? (of_binding j) agents)
find-stop i j =
    find?-update_where (of_binding j) (of_binding i) (set_runtime RuntimeStatus.stopped)
      (λ x. ground arith)

is_pair_stopped :
    (i j : ℕ) (b : Option GroupBinding) (a : Option AgentInstance)
    → ((x : GroupBinding) → b ≡ some x → has_id j x ≡ true)
    → ((x : AgentInstance) → a ≡ some x → of_binding j x ≡ true)
    → is_pair b a ≡ true
    → is_pair (Option.map (deactivate i) b) (Option.map (stop i) a) ≡ true
is_pair_stopped i j none none hb ha p = refl
is_pair_stopped i j none (some a) hb ha p = absurd (ground arith)
is_pair_stopped i j (some b) none hb ha p = absurd (ground arith)
is_pair_stopped i j (some b) (some a) hb ha p = elim (Bool-cases (i == j)) [
  | inl e ↦
      let hb' : has_id i b ≡ true = ground (arith, hb b refl) in
      let ha' : of_binding i a ≡ true = ground (arith, ha a refl) in rw hb' (rw ha')
  | inr e ↦
      let hb' : has_id i b ≡ false = ground (arith, hb b refl) in
      let ha' : of_binding i a ≡ false = ground (arith, ha a refl) in rw hb' (rw ha' p)
]

active_kept :
    (i : ℕ) (g : Text) (x : GroupBinding)
    → is_active_of g (deactivate i x) ≡ true
    → is_active_of g x ≡ true
active_kept i g x h = elim (Bool-cases (has_id i x)) [
  | inl e ↦ absurd (ground arith)
  | inr e ↦ let same : deactivate i x ≡ x = rw e in sym (ap (is_active_of g) same) ∙ h
]

unbound-IsCoherent : (i : ℕ) (db : Store) → IsCoherent db → IsCoherent (unbound i db)
unfolding unbound
unbound-IsCoherent i db c = record {
  single = λ g. omega (
    arith,
    c.single g,
    count-update_where_mono (has_id i) (is_active_of g) (is_active_of g)
        (set_status BindingStatus.inactive) (λ x h. active_kept i g x h) db.bindings,
  );
  paired = λ j.
      rw (find-deactivate i j db.bindings, find-stop i j db.agents)
        (is_pair_stopped i j _ _ (λ x h. find?_holds (has_id j) db.bindings x h)
          (λ x h. find?_holds (of_binding j) db.agents x h) (c.paired j));
}

upsert_new :
    (s : RuntimeStatus) (a i : ℕ) (agents : List AgentInstance)
    → find? (of_binding i) agents ≡ none
    → upsert_agent_instance s a i agents
      ≡ agents ++ (record { id = a; group_binding_id = i; status = s }) ∷ []
upsert_new s a i agents h = rw (any-eq_false_of_find? (of_binding i) agents h)

no_agent :
    (i : ℕ) (b : Option GroupBinding) (a : Option AgentInstance)
    → is_pair b a ≡ true
    → b ≡ none
    → a ≡ none
no_agent i none none p h = refl
no_agent i none (some a) p h = absurd (ground arith)
no_agent i (some b) a p h = absurd (ground arith)

-- A pair that is added under an id that had none.
add_pair :
    (i j : ℕ) (bs : List GroupBinding) (agents : List AgentInstance) (b : GroupBinding)
    (a : AgentInstance)
    → find? (has_id i) bs ≡ none
    → find? (of_binding i) agents ≡ none
    → b.id ≡ i
    → a.group_binding_id ≡ i
    → is_pair (some b) (some a) ≡ true
    → is_pair (find? (has_id j) bs) (find? (of_binding j) agents) ≡ true
    → is_pair (find? (has_id j) (bs ++ b ∷ [])) (find? (of_binding j) (agents ++ a ∷ [])) ≡ true
add_pair i j bs agents b a nb na ib ia p old = elim (Bool-cases (i == j)) [
  | inl e ↦
      let same : i ≡ j = ground arith in
      let hb : has_id i b ≡ true = ground arith in
      let ha : of_binding i a ≡ true = ground arith in
      rw (sym same) (
        rw (find?-append_none (has_id i) bs b nb, find?-append_none (of_binding i) agents a na)
          (rw (hb, ha) p))
  | inr e ↦
      let hb : has_id j b ≡ false = ground arith in
      let ha : of_binding j a ≡ false = ground arith in
      rw (find?-append_other (has_id j) bs b hb, find?-append_other (of_binding j) agents a ha) old
]

commit_binding-IsCoherent :
    (e : Env) (g : Text) (v : ℕ) (m : Marked) (intents : List OutboundIntent) (now : Store)
    → IsCoherent now
    → find? (has_id e.binding_id) now.bindings ≡ none
    → any (is_active_of g) now.bindings ≡ false
    → IsCoherent (commit_binding e g v (m, intents) now).1
unfolding commit_binding
commit_binding-IsCoherent e g v missing intents now c fresh free = c
commit_binding-IsCoherent e g v raised intents now c fresh free = c
commit_binding-IsCoherent e g v (marked o) intents now c fresh free =
    let without = no_agent e.binding_id _ _ (c.paired e.binding_id) fresh in
    record {
      single = λ h.
          count-snoc_le_one (is_active_of h) now.bindings (new_binding e g v) (c.single h) (λ same.
            let eq : g ≡ h = (text_eq_iff g h).0 (ground arith) in
            rw (sym eq) (
              count-eq_zero_of_any (is_active_of g) (is_active_of g) (λ x k. k) now.bindings free));
      paired = λ j.
          rw (upsert_new RuntimeStatus.healthy e.agent_instance_id e.binding_id now.agents without)
            (add_pair e.binding_id j now.bindings now.agents (new_binding e g v) _ fresh without
              refl refl refl (c.paired j));
    }

write_binding-IsCoherent :
    (e : Env) (g : Text) (v : TemplateVersion) (now : Store)
    → IsCoherent now
    → IsCoherent (write_binding e g v now).1
write_binding-IsCoherent e g v now c =
    let (m, intents) =
      create_outbound_intent e.show e.now g (activation_payload e g v now) e.outbound_intent_id
        now.intents in
    elim (Bool-cases (
      any (has_id e.binding_id) now.bindings
      || any (has_agent_id e.agent_instance_id) now.agents)) [
        | inl taken ↦ unfold write_binding in rw taken c
        | inr new ↦ elim (Bool-cases (any (is_active_of g) now.bindings)) [
          | inl other ↦ unfold write_binding in rw new (rw other c)
          | inr free ↦
              let fresh = find?-eq_none (has_id e.binding_id) now.bindings (or_false _ _ new) in
              let stored = commit_binding-IsCoherent e g v.id m intents now c fresh free in
              unfold write_binding in rw new (rw free stored)
        ]
      ]

pub create_binding-IsCoherent :
    (e : Env) (g : Text) (i : ℕ) (seen now : Store)
    → IsCoherent now
    → IsCoherent (create_binding e g i seen now).1
create_binding-IsCoherent e g i seen now c =
    elim (Option-cases (find? (has_version i) seen.template_versions)) [
      | inl missing_ ↦ unfold create_binding in rw (missing_, create_binding) c
      | inr (v, found) ↦ elim (Bool-cases (is_published v.status)) [
        | inr unpublished ↦ unfold create_binding in rw (found, create_binding) (rw unpublished c)
        | inl published ↦ elim (Bool-cases (any (is_active_of g) seen.bindings)) [
          | inl busy ↦
              unfold create_binding in rw (found, create_binding) (rw published (rw busy c))
          | inr free ↦
              let written = write_binding-IsCoherent e g v now c in
              unfold create_binding in rw (found, create_binding) (rw published (rw free written))
        ]
      ]
    ]

pub unbind-IsCoherent : (i : ℕ) (db : Store) → IsCoherent db → IsCoherent (unbind i db).1
unbind-IsCoherent i db c = elim (Option-cases (find? (has_id i) db.bindings)) [
  | inl missing_ ↦ unfold unbind in rw (missing_, unbind) c
  | inr (b, found) ↦
      let stopped = unbound-IsCoherent i db c in unfold unbind in rw (found, unbind) stopped
]

-- What one session does: a creation that has read any snapshot, or an unbinding.
pub data Call : Type 0 where
  create : Env → Text → ℕ → (seen : Store) → Call
  unbind_call : ℕ → Call

abbrev pub run : Call → Store → Store
run (create e g i seen) now = (create_binding e g i seen now).1
run (unbind_call i) now = (unbind i now).1

abbrev pub run_all : List Call → Store → Store
run_all [] db = db
run_all (c ∷ cs) db = run_all cs (run c db)

run-IsCoherent : (c : Call) (db : Store) → IsCoherent db → IsCoherent (run c db)
run-IsCoherent (create e g i seen) db h = create_binding-IsCoherent e g i seen db h
run-IsCoherent (unbind_call i) db h = unbind-IsCoherent i db h

-- Over every sequence of creations and unbindings, each creation with whatever snapshot it has read
-- before, a group has at most one active binding, and every binding is active with a healthy agent or
-- inactive with a stopped one.
pub bindings_history-IsCoherent :
    (cs : List Call) (db : Store) → IsCoherent db → IsCoherent (run_all cs db)
bindings_history-IsCoherent [] db h = h
bindings_history-IsCoherent (c ∷ cs) db h =
    bindings_history-IsCoherent cs (run c db) (run-IsCoherent c db h)
