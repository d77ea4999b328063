-- ===== src/Builds/Tests.antt =====
-- Builds on small inputs.
use kuuna_support_agents.Common.{
  ℕ, zero, ◌≡◌, refl, ◌↔◌, ◌⊎◌, true, none, some, [], ◌∷◌, Text, codes, take, suc, strip, arith,
}
use kuuna_support_agents.Common.Json.{str, obj, field, end, get}
use kuuna_support_agents.Models.{TemplateVersionStatus}
use kuuna_support_agents.Templates.{GroupTemplate, TemplateVersion}
use kuuna_support_agents.Runtime.{TemplateBuildStatus}
use kuuna_support_agents.Agent.Container.{is_safe_image_ref}
use kuuna_support_agents.Builds.{Env, Store, TemplateBuild, QueueTemplateBuildInput}
use kuuna_support_agents.Builds.Job.{
  raised, base_image_of, image_ref_of, build_image_tag, running_row, process_template_build_job,
}
use kuuna_support_agents.Builds.Job.Outcome.{Fails, Succeeds, IsReady, view, build_job_settles}
use kuuna_support_agents.Builds.Job.Tag.{image_tag_is_safe}
use kuuna_support_agents.Builds.Job.History.{queue, job, history, IsValid, builds_history-IsValid}

-- The commands end with this exit code; the logs of a build are this text.
abbrev environment : (returncode : ℕ) (logs : Text) → Env
environment returncode logs = record {
  lower = λ t. t;
  show_uuid = λ n. codes "00ab-11cd-22ef-33ab";
  parse_uuid = λ t. some 1;
  show = λ n. codes "1";
  str = λ j. codes "{}";
  json_dumps = λ j. logs;
  json_loads = λ t. none;
  docker_cli_path = codes "docker";
  template_build_context_path = codes ".";
  run = λ command. some (returncode, [], []);
}

abbrev template : GroupTemplate
template = record { id = 10; key = codes "Sales Team!"; display_name = codes "Sales" }

abbrev version : TemplateVersion
version = record {
  id = 20;
  template_id = 10;
  version_no = 1;
  status = TemplateVersionStatus.published;
  system_prompt = none;
  model_config = end;
  tools_config = end;
  egress_policy = end;
}

abbrev build : TemplateBuild
build = record {
  id = 1;
  template_id = 10;
  template_version_id = 20;
  status = TemplateBuildStatus.queued;
  image_ref = none;
  image_tag = none;
  build_inputs = obj (field "base_image" (str (codes "python:3.13")) end);
  logs_ref = none;
  created_at = 5;
}

abbrev empty_store : Store
empty_store = record {
  templates = template ∷ [];
  versions = version ∷ [];
  builds = [];
  audit = [];
  enqueued = [];
}

abbrev store : Store
store = record empty_store { builds = build ∷ [] }

abbrev payload : QueueTemplateBuildInput
payload = record { base_image = codes " python:3.13"; allowed_tools_override = none }

abbrev good : Env
good = environment 0 (codes "{}")

build_job_settles_example :
    (Fails (running_row build) (view 1 (process_template_build_job good (codes "1") store))
      ⊎ ((r : TemplateBuild) × Succeeds
            (view 1 (process_template_build_job good (codes "1") store))
            r))
    × (Succeeds (view 1 (process_template_build_job good (codes "1") store)) build
        ↔ IsReady good (running_row build) template version build)
build_job_settles_example =
    build_job_settles good (codes "1") build template version store build refl refl refl refl

abbrev repeat : ℕ → Text
repeat zero = []
repeat (suc n) = 97 ∷ repeat n

-- Logs of 1025 characters do not fit their column: the job raises and the build stays in the state
-- `running`.
long_logs_raise :
    view 1 (process_template_build_job (environment 0 (repeat 1025)) (codes "1") store)
    ≡ (raised, some (running_row build))
unfolding process_template_build_job base_image_of image_ref_of strip get
long_logs_raise = refl

builds_history-IsValid_example :
    IsValid (history (queue good true 7 1 6 10 20 payload ∷ job good (codes "1") ∷ []) empty_store)
builds_history-IsValid_example =
    builds_history-IsValid (queue good true 7 1 6 10 20 payload ∷ job good (codes "1") ∷ [])
      empty_store (refl, λ i. omega arith)

image_tag_is_safe_example :
    is_safe_image_ref (take 512 (build_image_tag good (codes "Sales Team!") 1)) ≡ true
image_tag_is_safe_example = image_tag_is_safe good (codes "Sales Team!") 1 (λ t h. h) refl

tag_of_template :
    build_image_tag good (codes "Sales Team!") 1
    ≡ codes "kuuna/template-Sales-Team:build-00ab11cd22ef"
unfolding build_image_tag
tag_of_template = refl
