-- ===== src/Bindings/Activation.antt =====
-- What a new binding does: backend/src/kuuna_backend/domain/bindings/service.py, with the intent that
-- backend/src/kuuna_backend/domain/outbound/service.py creates for it.
use kuuna_support_agents.Common.{
  ℕ, ◌≡◌, true, false, some, [], ◌∷◌, ◌++◌, Text, find?, any, if◌then◌else◌, ◌==◌, text_eq,
}
use kuuna_support_agents.Outbound.{has_id as is_intent, OutboundIntent}
use kuuna_support_agents.Outbound.Creation.{IsNew}
use kuuna_support_agents.Bindings.{
  Store, Env, BindingView, has_id, is_active_of, GroupBinding, AgentInstance, BindingStatus,
  RuntimeStatus,
}

-- The new binding is active, for this group and version; its agent, which the view shows, is healthy;
-- the group had no active binding; one intent has been created, which is ready for dispatch, and which
-- the queue has if it accepted the job.
abbrev pub Activates : Env → Text → ℕ → Store → BindingView → Store → Type 0
Activates e g i now view after =
    (b : GroupBinding) × (a : AgentInstance) × (view.binding ≡ b)
    × ((b.id ≡ e.binding_id)
        × (text_eq b.provider_group_id g ≡ true)
        × (b.template_version_id ≡ i)
        × (b.status ≡ BindingStatus.active))
    × ((view.agent_instance ≡ some a)
        × (find? (λ x. x.group_binding_id == e.binding_id) after.agents ≡ some a)
        × (a.status ≡ RuntimeStatus.healthy))
    × (any (is_active_of g) now.bindings ≡ false)
    × (after.bindings ≡ now.bindings ++ b ∷ [])
    × ((o : OutboundIntent) × IsNew g e.outbound_intent_id now.intents o after.intents)
    × (after.dispatch_jobs ≡ (
        if e.queue_accepts
        then now.dispatch_jobs ++ e.outbound_intent_id ∷ []
        else now.dispatch_jobs))
