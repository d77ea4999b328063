-- ===== src/Builds.antt =====
-- The images of template versions: backend/src/kuuna_backend/domain/template_builds/service.py, and in
-- Job the job that builds one. A call reads and commits one store: no other session writes meanwhile.
pub mod Queue
pub mod Job
mod Tests
use kuuna_support_agents.Common.{
  ℕ, ◌≡◌, Bool, true, false, ◌&&◌, ◌||◌, not, Option, none, some, List, [], ◌∷◌, ◌++◌, Text, codes,
  strip, is_empty, contains, map, filter, find?, any, all, length, Result, ok, err, if◌then◌else◌,
  leb, ltb, ◌==◌,
}
use kuuna_support_agents.Common.Json.{
  Json, Items, Fields, null, bool, num, str, arr, obj, field, end, items,
}
use kuuna_support_agents.Models.{TemplateVersionStatus, is_published}
use kuuna_support_agents.Templates.{GroupTemplate, TemplateVersion}
use kuuna_support_agents.Templates.Tools.{extract_allowed_tools}
use kuuna_support_agents.Runtime.{TemplateBuildStatus}
use kuuna_support_agents.Runtime
use kuuna_support_agents.Audit.{AuditEvent, append_audit_event}

pub record TemplateBuild : Type 0 where
  pub id : ℕ
  pub template_id : ℕ
  pub template_version_id : ℕ
  pub status : TemplateBuildStatus
  pub image_ref : Option Text
  pub image_tag : Option Text
  pub build_inputs : Json
  pub logs_ref : Option Text
  pub created_at : ℕ

-- The columns that the resolution of a runtime target reads.
abbrev pub runtime_row : TemplateBuild → Runtime.TemplateBuild
runtime_row b = record {
  id = b.id;
  template_version_id = b.template_version_id;
  status = b.status;
  image_ref = b.image_ref;
  created_at = b.created_at;
}

-- The tables, and the builds handed to the queue.
pub record Store : Type 0 where
  pub templates : List GroupTemplate
  pub versions : List TemplateVersion
  pub builds : List TemplateBuild
  pub audit : List AuditEvent
  pub enqueued : List Text

-- `raised` is an exception of the database or of the queue.
pub data TemplateBuildServiceError : Type 0 where
  not_found raised : TemplateBuildServiceError
  validation : Text → TemplateBuildServiceError

abbrev pub Outcome : Type 0 → Type 0
Outcome A = Result TemplateBuildServiceError A × Store

-- What the service and the job use of Python and of the settings.
pub record Env : Type 0 where
  pub lower : Text → Text
  pub show_uuid : ℕ → Text
  pub parse_uuid : Text → Option ℕ
  pub show : ℕ → Text
  pub str : Json → Text
  pub json_dumps : Json → Text
  pub json_loads : Text → Option Json
  pub docker_cli_path : Text
  pub template_build_context_path : Text
  -- The exit code, the standard output and the standard error of a command, or an exception.
  pub run : List Text → Option (ℕ × Text × Text)

-- A character of `_BASE_IMAGE_PATTERN`.
abbrev pub is_base_image_code : ℕ → Bool
is_base_image_code c =
    leb 97 c && leb c 122
    || leb 65 c && leb c 90
    || leb 48 c && leb c 57
    || contains (c ∷ []) (map (λ k. k ∷ []) (codes "._/:@-"))

-- `_validate_base_image`
pub validate_base_image : Text → Result TemplateBuildServiceError Text
validate_base_image value =
    let normalized = strip value in
    if is_empty normalized
    then err (validation (codes "base_image is required"))
    else (if ltb 255 (length normalized)
        then err (validation (codes "base_image is too long"))
        else (if all is_base_image_code normalized
            then ok normalized
            else err (validation (codes "base_image contains invalid characters"))))

pub record QueueTemplateBuildInput : Type 0 where
  pub base_image : Text
  pub allowed_tools_override : Option (List Text)

abbrev is_named : Text → Bool
is_named tool = not (is_empty (strip tool))

abbrev pub allowed_tools : Env → Option (List Text) → TemplateVersion → List Text
allowed_tools e none version = extract_allowed_tools e.lower (obj version.tools_config)
allowed_tools e (some tools) version = map (λ tool. e.lower (strip tool)) (filter is_named tools)

abbrev texts : List Text → Json
texts ts = arr (items (map Json.str ts))

abbrev build_inputs : TemplateVersion → Text → List Text → Json
build_inputs version base_image tools = obj (
    field "base_image" (Json.str base_image) (
      field "allowed_tools" (texts tools) (
        field "egress_policy" (obj version.egress_policy) (
          field "tools_config" (obj version.tools_config)
            (field "model_config" (obj version.model_config) end)))))

-- The row of a new build.
abbrev pub queued_row :
    Env
    → (new_id created_at : ℕ) → TemplateVersion
    → (base_image : Text) → Option (List Text)
    → TemplateBuild
queued_row e new_id created_at version base_image tools = record {
  id = new_id;
  template_id = version.template_id;
  template_version_id = version.id;
  status = TemplateBuildStatus.queued;
  image_ref = none;
  image_tag = none;
  build_inputs = build_inputs version base_image (allowed_tools e tools version);
  logs_ref = none;
  created_at = created_at;
}

abbrev pub has_id : ℕ → TemplateBuild → Bool
has_id build_id b = b.id == build_id

abbrev pub find_template : ℕ → Store → Option GroupTemplate
find_template template_id db = find? (λ t. t.id == template_id) db.templates

abbrev pub find_version : ℕ → Store → Option TemplateVersion
find_version version_id db = find? (λ v. v.id == version_id) db.versions

-- The version, if it is one of the template.
pub version_of :
    (template_id version_id : ℕ) → Store → Result TemplateBuildServiceError TemplateVersion
version_of template_id version_id db = elim (find_version version_id db) [
  | none ↦ err (validation (codes "template version not found"))
  | some v ↦
      if v.template_id == template_id
      then ok v
      else err (validation (codes "template version not found"))
]

-- The commit of the build and its event.
abbrev pub commit_queued : Env → (actor : ℕ) → TemplateBuild → Store → Store
commit_queued e actor b db = record db {
  builds = db.builds ++ b ∷ [];
  audit =
      append_audit_event (some actor) (codes "template_build.queued") (codes "template_build")
        (e.show_uuid b.id)
        (field "template_id" (Json.str (e.show_uuid b.template_id))
          (field "template_version_id" (Json.str (e.show_uuid b.template_version_id)) end))
        db.audit;
}

-- `enqueue_template_build`, where the queue answers.
abbrev pub enqueue : Env → ℕ → Store → Store
enqueue e build_id db = record db { enqueued = db.enqueued ++ e.show_uuid build_id ∷ [] }

abbrev enqueue_queued : Env → (queue_is_up : Bool) → TemplateBuild → Store → Outcome TemplateBuild
enqueue_queued e queue_is_up b db =
    if queue_is_up then (ok b, enqueue e b.id db) else (err raised, db)

-- What the session stores: the primary key of a build is new.
abbrev add_queued :
    Env → (queue_is_up : Bool) → (actor : ℕ) → TemplateBuild → Store → Outcome TemplateBuild
add_queued e queue_is_up actor b db =
    if any (has_id b.id) db.builds
    then (err raised, db)
    else enqueue_queued e queue_is_up b (commit_queued e actor b db)

abbrev pub with_image :
    Env
    → (queue_is_up : Bool) → (actor new_id created_at : ℕ) → TemplateVersion
    → Option (List Text)
    → Result TemplateBuildServiceError Text
    → Store
    → Outcome TemplateBuild
with_image e queue_is_up actor new_id created_at version tools (err x) db = (err x, db)
with_image e queue_is_up actor new_id created_at version tools (ok base_image) db =
    add_queued e queue_is_up actor (queued_row e new_id created_at version base_image tools) db

abbrev pub with_version :
    Env
    → (queue_is_up : Bool) → (actor new_id created_at : ℕ) → QueueTemplateBuildInput
    → Result TemplateBuildServiceError TemplateVersion
    → Store
    → Outcome TemplateBuild
with_version e queue_is_up actor new_id created_at payload (err x) db = (err x, db)
with_version e queue_is_up actor new_id created_at payload (ok version) db =
    if is_published version.status
    then with_image e queue_is_up actor new_id created_at version payload.allowed_tools_override
        (validate_base_image payload.base_image) db
    else (err (validation (codes "only published template versions can be built")), db)

-- `queue_template_build`
pub queue_template_build :
    Env
    → (queue_is_up : Bool) → (actor new_id created_at template_id version_id : ℕ)
    → QueueTemplateBuildInput
    → Store
    → Outcome TemplateBuild
unfolding version_of
queue_template_build e queue_is_up actor new_id created_at template_id version_id payload db =
    elim (find_template template_id db) [
      | none ↦ (err (validation (codes "template not found")), db)
      | some _ ↦
          with_version e queue_is_up actor new_id created_at payload
            (version_of template_id version_id db) db
    ]

-- `.order_by(created_at.desc(), id.desc())`
insert_newest : TemplateBuild → List TemplateBuild → List TemplateBuild
insert_newest b [] = b ∷ []
insert_newest b (c ∷ cs) =
    let rest = insert_newest b cs in
    if Runtime.is_newer (runtime_row c) (runtime_row b) then c ∷ rest else b ∷ c ∷ cs

newest_first : List TemplateBuild → List TemplateBuild
unfolding insert_newest
newest_first [] = []
newest_first (b ∷ bs) = insert_newest b (newest_first bs)

-- `list_template_builds_for_version`
pub list_template_builds_for_version :
    (template_id version_id : ℕ) → Store → Result TemplateBuildServiceError (List TemplateBuild)
unfolding version_of newest_first
list_template_builds_for_version template_id version_id db =
    elim (version_of template_id version_id db) [
      | err x ↦ err x
      | ok version ↦ ok (newest_first (filter (λ b. b.template_version_id == version_id) db.builds))
    ]

-- `get_template_build`
pub get_template_build : (build_id : ℕ) → Store → Result TemplateBuildServiceError TemplateBuild
get_template_build build_id db = elim (find? (has_id build_id) db.builds) [
  | none ↦ err not_found
  | some b ↦ ok b
]
