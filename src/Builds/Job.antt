-- ===== src/Builds/Job.antt =====
-- The job that builds the image of a template version:
-- backend/src/kuuna_backend/jobs/template_build.py. The logger is left out.
pub mod Outcome
pub mod Tag
pub mod History
use kuuna_support_agents.Common.{
  ℕ, zero, suc, ◌-◌, ◌≡◌, Bool, true, false, ◌&&◌, ◌||◌, not, Option, none, some, List, [], ◌∷◌,
  ◌++◌, Text, codes, strip, is_empty, contains, map, filter, find?, update_where, take, drop,
  length, if◌then◌else◌, leb, ltb, ◌==◌,
}
use kuuna_support_agents.Common.Json.{
  pos, Json, Items, Fields, null, bool, num, arr, obj, nil, cons, field, end, items, get, truthy,
}
use kuuna_support_agents.Common.Json
use kuuna_support_agents.Templates.{GroupTemplate, TemplateVersion}
use kuuna_support_agents.Runtime.{TemplateBuildStatus}
use kuuna_support_agents.Audit.{append_audit_event}
use kuuna_support_agents.Builds.{Env, Store, TemplateBuild, has_id, find_template, find_version}

-- How a job ended.
pub data Ended : Type 0 where
  returned raised : Ended

-- `_tail`
pub tail : Text → ℕ → Text
tail value max_len =
    if leb (length value) max_len then value else 8230 ∷ drop (length value - max_len) value

-- A character that `_TAG_SAFE_PATTERN` keeps.
abbrev pub is_tag_code : ℕ → Bool
is_tag_code c =
    leb 97 c && leb c 122
    || leb 65 c && leb c 90
    || leb 48 c && leb c 57
    || c == 46
    || c == 95
    || c == 45

-- `_TAG_SAFE_PATTERN.sub("-", t)`: one dash for each run of the other characters.
pub safe_characters : (in_run : Bool) → Text → Text
safe_characters in_run [] = []
safe_characters in_run (c ∷ t) =
    let kept = safe_characters false t in
    let dropped = safe_characters true t in
    if is_tag_code c then c ∷ kept else (if in_run then dropped else 45 ∷ dropped)

-- `t.strip("-")`
pub lstrip_dashes : Text → Text
lstrip_dashes [] = []
lstrip_dashes (c ∷ t) = let rest = lstrip_dashes t in if c == 45 then rest else c ∷ t

pub rstrip_dashes : Text → Text
rstrip_dashes [] = []
rstrip_dashes (c ∷ t) =
    let rest = rstrip_dashes t in if is_empty rest && c == 45 then [] else c ∷ rest

abbrev pub or_template : Text → Text
or_template [] = codes "template"
or_template (c ∷ t) = c ∷ t

abbrev pub is_not_dash : ℕ → Bool
is_not_dash c = not (c == 45)

-- `_build_image_tag`
unfoldable pub build_image_tag : Env → (template_key : Text) → (build_id : ℕ) → Text
unfolding safe_characters lstrip_dashes rstrip_dashes
build_image_tag e template_key build_id =
    codes "kuuna/template-"
    ++ or_template (e.lower (rstrip_dashes (lstrip_dashes (safe_characters false template_key))))
    ++ codes ":build-"
    ++ take 12 (filter is_not_dash (e.show_uuid build_id))

abbrev pub build_cmd :
    Env → (base_image template_key image_tag : Text) → (version_id : ℕ) → List Text
build_cmd e base_image template_key image_tag version_id =
    e.docker_cli_path
    ∷ codes "build"
    ∷ codes "-f"
    ∷ codes "Dockerfile"
    ∷ codes "--build-arg"
    ∷ (codes "BASE_IMAGE=" ++ base_image)
    ∷ codes "--build-arg"
    ∷ (codes "KUUNA_TEMPLATE_KEY=" ++ template_key)
    ∷ codes "--build-arg"
    ∷ (codes "KUUNA_TEMPLATE_VERSION_ID=" ++ e.show_uuid version_id)
    ∷ codes "-t"
    ∷ image_tag
    ∷ e.template_build_context_path
    ∷ []

abbrev pub inspect_cmd : Env → (image_tag : Text) → List Text
inspect_cmd e image_tag =
    e.docker_cli_path
    ∷ codes "image"
    ∷ codes "inspect"
    ∷ codes "--format"
    ∷ codes "{{json .RepoDigests}}"
    ∷ image_tag
    ∷ []

-- The logs of a build, as they are stored.
abbrev pub logs : Env → (command : List Text) → (returncode : ℕ) → (stdout stderr : Text) → Text
logs e command returncode stdout stderr = e.json_dumps (
    obj (
      field "command" (arr (items (map Json.str command))) (
        field "returncode" (num (pos returncode)) (
          field "stdout_tail" (Json.str (tail stdout 4000))
            (field "stderr_tail" (Json.str (tail stderr 4000)) end)))))

abbrev pub texts_of : Items → List Text
texts_of nil = []
texts_of (cons (Json.str (c ∷ t)) js) = (c ∷ t) ∷ texts_of js
texts_of (cons _ js) = texts_of js

abbrev pub digests_of : Option Json → List Text
digests_of (some (arr js)) = texts_of js
digests_of _ = []

abbrev pub digests : Env → (ℕ × Text × Text) → List Text
digests e (zero, stdout, stderr) =
    if is_empty (strip stdout) then [] else digests_of (e.json_loads (strip stdout))
digests e (suc n, stdout, stderr) = []

abbrev pub first_or : Text → List Text → Text
first_or d [] = d
first_or d (t ∷ ts) = t

-- `digests[0] if digests else image_tag`
unfoldable pub image_ref_of : Env → (image_tag : Text) → (ℕ × Text × Text) → Text
image_ref_of e image_tag inspect = first_or image_tag (digests e inspect)

-- A column of so many characters takes the value; PostgreSQL refuses a longer one.
abbrev pub fits : ℕ → Option Text → Bool
fits n none = true
fits n (some t) = leb (length t) n

abbrev pub accepts : TemplateBuild → Bool
accepts b = fits 512 b.image_ref && fits 255 b.image_tag && fits 1024 b.logs_ref

-- `append_audit_event` for a build, without an actor.
abbrev pub add_event : Env → (event_type : Text) → ℕ → Fields → Store → Store
add_event e event_type build_id payload db = record db {
  audit =
      append_audit_event none event_type (codes "template_build") (e.show_uuid build_id) payload
        db.audit;
}

abbrev pub put_row : TemplateBuild → Store → Store
put_row b db = record db { builds = update_where (has_id b.id) (λ c. b) db.builds }

-- `db.commit`: the row and its event are stored, or the database raises and the job rolls back.
pub commit : Env → TemplateBuild → (event_type : Text) → Fields → Store → Ended × Store
commit e b event_type payload db =
    if accepts b
    then (returned, add_event e event_type b.id payload (put_row b db))
    else (raised, db)

abbrev pub failed_row : TemplateBuild → TemplateBuild
failed_row b = record b { status = TemplateBuildStatus.failed; image_ref = none }

-- `_mark_failed`
pub mark_failed : Env → TemplateBuild → (error : Text) → Store → Ended × Store
unfolding commit
mark_failed e b error db =
    commit e (failed_row b) (codes "template_build.failed") (field "error" (Json.str error) end) db

abbrev pub succeeded_row : TemplateBuild → (image_ref image_tag : Text) → TemplateBuild
succeeded_row b image_ref image_tag = record b {
  status = TemplateBuildStatus.succeeded;
  image_ref = some (take 512 image_ref);
  image_tag = some (take 255 image_tag);
}

abbrev pub success_payload : Env → TemplateBuild → (image_ref : Text) → Fields
success_payload e b image_ref = field "template_id" (Json.str (e.show_uuid b.template_id)) (
    field "template_version_id" (Json.str (e.show_uuid b.template_version_id))
      (field "image_ref" (Json.str (take 512 image_ref)) end))

-- What follows the inspection of the image.
pub after_inspect :
    Env → TemplateBuild → (image_tag : Text) → Option (ℕ × Text × Text) → Store → Ended × Store
unfolding commit
after_inspect e b image_tag none db = (raised, db)
after_inspect e b image_tag (some inspect) db =
    let image_ref = image_ref_of e image_tag inspect in
    commit e (succeeded_row b image_ref image_tag) (codes "template_build.succeeded")
      (success_payload e b image_ref) db

-- What follows the build, whose logs `with_logs` holds.
pub after_build :
    Env
    → TemplateBuild
    → (command : List Text) → (image_tag : Text) → Option (ℕ × Text × Text)
    → Store
    → Ended × Store
unfolding mark_failed after_inspect
after_build e b command image_tag none db = (raised, db)
after_build e b command image_tag (some (zero, stdout, stderr)) db =
    after_inspect e (record b { logs_ref = some (logs e command 0 stdout stderr) }) image_tag
      (e.run (inspect_cmd e image_tag)) db
after_build e b command image_tag (some (suc n, stdout, stderr)) db =
    mark_failed e (record b { logs_ref = some (logs e command (suc n) stdout stderr) })
      (codes "docker build failed (exit " ++ e.show (suc n) ++ codes ")") db

abbrev input_of : Json → Option Json
input_of (obj d) = get "base_image" d
input_of _ = none

abbrev text_of : Env → Json → Text
text_of e (Json.str t) = t
text_of e j = e.str j

abbrev text_or_empty : Env → Option Json → Text
text_or_empty e none = []
text_or_empty e (some j) = if truthy (some j) then text_of e j else []

-- `str(build_inputs.get("base_image") or "").strip()`
unfoldable pub base_image_of : Env → TemplateBuild → Text
base_image_of e b = strip (text_or_empty e (input_of b.build_inputs))

abbrev pub running_row : TemplateBuild → TemplateBuild
running_row b = record b { status = TemplateBuildStatus.running }

-- The build of a row that is running.
pub build_image : Env → TemplateBuild → GroupTemplate → TemplateVersion → Store → Ended × Store
unfolding mark_failed after_build build_image_tag
build_image e b template version db =
    let base_image = base_image_of e b in
    let image_tag = build_image_tag e template.key b.id in
    let command = build_cmd e base_image template.key image_tag version.id in
    if is_empty base_image
    then mark_failed e b (codes "missing base_image in build_inputs") db
    else after_build e b command image_tag (e.run command) db

abbrev pub with_rows :
    Env → TemplateBuild → Option GroupTemplate → Option TemplateVersion → Store → Ended × Store
with_rows e b (some template) (some version) db =
    build_image e (running_row b) template version (put_row (running_row b) db)
with_rows e b _ _ db = mark_failed e b (codes "missing template/version rows") db

abbrev pub with_build : Env → Option TemplateBuild → Store → Ended × Store
with_build e none db = (returned, db)
with_build e (some b) db =
    with_rows e b (find_template b.template_id db) (find_version b.template_version_id db) db

abbrev pub with_uuid : Env → Option ℕ → Store → Ended × Store
with_uuid e none db = (returned, db)
with_uuid e (some build_id) db = with_build e (find? (has_id build_id) db.builds) db

-- `process_template_build_job`
unfoldable pub process_template_build_job : Env → (build_id : Text) → Store → Ended × Store
unfolding build_image
process_template_build_job e build_id db = with_uuid e (e.parse_uuid build_id) db
