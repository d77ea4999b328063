-- ===== src/Bindings/Tests.antt =====
-- Bindings at concrete stores.
use kuuna_support_agents.Common.{none, ℕ, refl, true, some, [], ◌∷◌, codes, List, arith}
use kuuna_support_agents.Common.Json.{null}
use kuuna_support_agents.Models.{TemplateVersionStatus}
use kuuna_support_agents.Bindings.{
  Store, Env, TemplateVersion, BindingView, new_binding, RuntimeStatus,
}
use kuuna_support_agents.Bindings.Coherence.{
  IsCoherent, Call, create, unbind_call, run_all, bindings_history-IsCoherent,
}

abbrev version : TemplateVersion
version = record {
  id = 7;
  status = TemplateVersionStatus.published;
  model_config = null;
  tools_config = null;
  system_prompt = none;
}

abbrev empty : Store
empty = record {
  template_versions = version ∷ [];
  bindings = [];
  agents = [];
  intents = [];
  dispatch_jobs = [];
}

empty-IsCoherent : IsCoherent empty
empty-IsCoherent = record { single = λ g. omega arith; paired = λ i. refl }

abbrev env : ℕ → Env
env n = record {
  binding_id = n;
  agent_instance_id = n;
  trace_id = n;
  outbound_intent_id = n;
  show = λ k. k ∷ [];
  now = codes "12:00";
  queue_accepts = true;
}

-- The second creation has read the tables before the first one was committed.
abbrev calls : List Call
calls =
    create (env 1) (codes "g") 7 empty
    ∷ create (env 2) (codes "g") 7 empty
    ∷ unbind_call 1
    ∷ create (env 3) (codes "g") 7 empty
    ∷ []

bindings_history-IsCoherent_example : IsCoherent (run_all calls empty)
bindings_history-IsCoherent_example = bindings_history-IsCoherent calls empty empty-IsCoherent

abbrev view : BindingView
view = record {
  binding = new_binding (env 1) (codes "g") 7;
  agent_instance = some (record { id = 1; group_binding_id = 1; status = RuntimeStatus.healthy });
}
