-- ===== src/Runtime/Tests.antt =====
-- The resolution at a concrete store.
use kuuna_support_agents.Common.{
  ℕ, ◌≡◌, refl, true, none, some, List, [], ◌∷◌, codes, ok, text_eq, strip,
}
use kuuna_support_agents.Common.Json.{null}
use kuuna_support_agents.Models.{TemplateVersionStatus}
use kuuna_support_agents.Bindings.{GroupBinding, BindingStatus, Store}
use kuuna_support_agents.Runtime.{
  TemplateBuild, TemplateBuildStatus, ResolvedRuntimeTarget, resolve_runtime_target,
}
use kuuna_support_agents.Runtime.Target.{IsTarget, resolve_runtime_target_effect}

abbrev build : ℕ → TemplateBuildStatus → ℕ → TemplateBuild
build i s t = record {
  id = i;
  template_version_id = 7;
  status = s;
  image_ref = some (codes "image");
  created_at = t;
}

abbrev builds : List TemplateBuild
builds =
    build 1 TemplateBuildStatus.succeeded 10
    ∷ build 2 TemplateBuildStatus.succeeded 20
    ∷ build 3 TemplateBuildStatus.failed 30
    ∷ []

abbrev binding : GroupBinding
binding = record {
  id = 4;
  provider_group_id = codes "g";
  template_version_id = 7;
  status = BindingStatus.active;
}

abbrev db : Store
db = record {
  template_versions =
      record {
        id = 7;
        status = TemplateVersionStatus.published;
        model_config = null;
        tools_config = null;
        system_prompt = none;
      }
      ∷ [];
  bindings = binding ∷ [];
  agents = [];
  intents = [];
  dispatch_jobs = [];
}

abbrev resolved : ResolvedRuntimeTarget
resolved = record {
  provider_group_id = codes "g";
  binding_id = 4;
  agent_instance_id = none;
  template_version_id = 7;
  template_build_id = some 2;
  image_ref = some (codes "image");
}

resolved_lem : resolve_runtime_target (codes "g") true builds db ≡ ok resolved
unfolding resolve_runtime_target text_eq strip
resolved_lem = refl

resolve_runtime_target_effect_example : IsTarget (codes "g") true builds db resolved
resolve_runtime_target_effect_example =
    resolve_runtime_target_effect (codes "g") true builds db resolved resolved_lem
