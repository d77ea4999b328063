-- ===== src/Runtime.antt =====
-- Where an inbound message is executed: backend/src/kuuna_backend/domain/runtime/resolve.py. The
-- tables of bindings, agents and versions are those of the bindings; a time is a number.
pub mod Latest
pub mod Target
mod Tests
use kuuna_support_agents.Common.{
  ℕ, ◌≡◌, Bool, true, false, ◌&&◌, ◌||◌, not, Option, none, some, List, [], ◌∷◌, Text, strip,
  is_empty, find?, any, Result, ok, err, if◌then◌else◌, ltb, ◌==◌,
}
use kuuna_support_agents.Bindings.{
  GroupBinding, AgentInstance, TemplateVersion, Store, is_active_of, of_binding, has_version,
}

pub data TemplateBuildStatus : Type 0 where
  queued running succeeded failed cancelled : TemplateBuildStatus

abbrev pub is_succeeded : TemplateBuildStatus → Bool
is_succeeded TemplateBuildStatus.succeeded = true
is_succeeded _ = false

pub record TemplateBuild : Type 0 where
  pub id : ℕ
  pub template_version_id : ℕ
  pub status : TemplateBuildStatus
  pub image_ref : Option Text
  pub created_at : ℕ

pub record ResolvedRuntimeTarget : Type 0 where
  pub provider_group_id : Text
  pub binding_id : ℕ
  pub agent_instance_id : Option ℕ
  pub template_version_id : ℕ
  pub template_build_id : Option ℕ
  pub image_ref : Option Text

pub data RuntimeResolutionError : Type 0 where
  no_binding no_successful_build : RuntimeResolutionError

-- `.order_by(created_at.desc(), id.desc()).limit(1)` of the rows that pass a test.
abbrev pub is_newer : TemplateBuild → TemplateBuild → Bool
is_newer a b = ltb b.created_at a.created_at || a.created_at == b.created_at && ltb b.id a.id

abbrev later : TemplateBuild → Option TemplateBuild → Option TemplateBuild
later b none = some b
later b (some c) = if is_newer c b then some c else some b

pub latest : (TemplateBuild → Bool) → List TemplateBuild → Option TemplateBuild
latest p [] = none
latest p (b ∷ bs) = let rest = latest p bs in if p b then later b rest else rest

abbrev pub is_build_of : ℕ → TemplateBuild → Bool
is_build_of v b = b.template_version_id == v && is_succeeded b.status

abbrev pub has_image : Option Text → Bool
has_image none = false
has_image (some r) = not (is_empty (strip r))

-- The join with the versions keeps a binding whose version is there.
abbrev pub is_bound : Text → List TemplateVersion → GroupBinding → Bool
is_bound g vs b = is_active_of g b && any (has_version b.template_version_id) vs

abbrev agent_id : Option AgentInstance → Option ℕ
agent_id none = none
agent_id (some a) = some a.id

abbrev target :
    Text → GroupBinding → Option AgentInstance → Option ℕ → Option Text → ResolvedRuntimeTarget
target g b a build image = record {
  provider_group_id = g;
  binding_id = b.id;
  agent_instance_id = agent_id a;
  template_version_id = b.template_version_id;
  template_build_id = build;
  image_ref = image;
}

with_build :
    Text
    → (required : Bool) → GroupBinding
    → Option AgentInstance
    → Option TemplateBuild
    → Result RuntimeResolutionError ResolvedRuntimeTarget
with_build g required b a none =
    if required then err no_successful_build else ok (target g b a none none)
with_build g required b a (some build) =
    if required && not (has_image build.image_ref)
    then err no_successful_build
    else ok (target g b a (some build.id) build.image_ref)

-- `resolve_runtime_target`
unfoldable pub resolve_runtime_target :
    Text
    → (require_successful_build : Bool) → List TemplateBuild
    → Store
    → Result RuntimeResolutionError ResolvedRuntimeTarget
unfolding with_build latest
resolve_runtime_target g required builds db =
    elim (find? (is_bound g db.template_versions) db.bindings) [
      | none ↦ err no_binding
      | some b ↦
          with_build g required b (find? (of_binding b.id) db.agents)
            (latest (is_build_of b.template_version_id) builds)
    ]
