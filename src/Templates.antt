-- ===== src/Templates.antt =====
-- Template lifecycle: backend/src/kuuna_backend/domain/templates/service.py.
-- A call that inserts takes two stores: `seen`, which its checks read, and `now`, which the commit
-- meets after other sessions have written. The database's constraints refuse a commit that would
-- break a key; the service rolls back and raises a conflict.
pub mod Invariant
pub mod Effects
pub mod Tools
mod Tests
use kuuna_support_agents.Common.{
  ℕ, ◌+◌, ◌≡◌, Bool, true, false, not, ◌&&◌, ◌||◌, Option, none, some, List, [], ◌∷◌, ◌++◌, max,
  Text, text_eq, Result, ok, err, ◌==◌, if◌then◌else◌, find?, any, update_where,
}
use kuuna_support_agents.Common.Json.{Fields, end}
use kuuna_support_agents.Models.{TemplateVersionStatus, is_published, is_archived}

pub record GroupTemplate : Type 0 where
  pub id : ℕ
  pub key : Text
  pub display_name : Text

pub record TemplateVersion : Type 0 where
  pub id : ℕ
  pub template_id : ℕ
  pub version_no : ℕ
  pub status : TemplateVersionStatus
  pub system_prompt : Option Text
  pub model_config : Fields
  pub tools_config : Fields
  pub egress_policy : Fields

pub data TemplateServiceError : Type 0 where
  template_not_found template_version_not_found template_conflict template_lifecycle :
      TemplateServiceError

pub record Store : Type 0 where
  pub templates : List GroupTemplate
  pub versions : List TemplateVersion

abbrev pub Outcome : Type 0 → Type 0
Outcome A = Result TemplateServiceError A × Store

get_template : Store → ℕ → Result TemplateServiceError GroupTemplate
get_template db template_id = elim (find? (λ t. t.id == template_id) db.templates) [
  | none ↦ err template_not_found
  | some t ↦ ok t
]

-- The primary key and the unique constraint on `key`.
abbrev accepts_template : Store → GroupTemplate → Bool
accepts_template db t = not (any (λ u. u.id == t.id || text_eq u.key t.key) db.templates)

-- `db.add`, `db.commit` and the handler of `IntegrityError`.
commit_template : GroupTemplate → Store → Outcome GroupTemplate
commit_template t now =
    if accepts_template now t
    then (ok t, record now { templates = now.templates ++ t ∷ [] })
    else (err template_conflict, now)

pub create_template :
    (new_id : ℕ) (key display_name : Text) (seen now : Store) → Outcome GroupTemplate
create_template new_id key display_name seen now =
    elim (find? (λ t. text_eq t.key key) seen.templates) [
      | some _ ↦ (err template_conflict, now)
      | none ↦ commit_template (record { id = new_id; key = key; display_name = display_name }) now
    ]

-- `select(func.max(version_no))`, with 0 where there is no version yet.
pub latest_version_no : ℕ → List TemplateVersion → ℕ
latest_version_no template_id [] = 0
latest_version_no template_id (v ∷ vs) =
    let rest = latest_version_no template_id vs in
    if v.template_id == template_id then max v.version_no rest else rest

-- The primary key, the unique constraint on the template and the number, and the foreign key.
abbrev accepts_version : Store → TemplateVersion → Bool
accepts_version db v =
    not (
      any (λ w. w.id == v.id || (w.template_id == v.template_id && w.version_no == v.version_no))
        db.versions)
    && any (λ t. t.id == v.template_id) db.templates

-- The four optional arguments of a new draft; `None` configs are stored as empty dicts.
pub record DraftInput : Type 0 where
  pub system_prompt : Option Text
  pub model_config : Option Fields
  pub tools_config : Option Fields
  pub egress_policy : Option Fields

abbrev or_empty : Option Fields → Fields
or_empty none = end
or_empty (some d) = d

abbrev draft_row : (new_id template_id version_no : ℕ) → DraftInput → TemplateVersion
draft_row new_id template_id version_no i = record {
  id = new_id;
  template_id = template_id;
  version_no = version_no;
  status = TemplateVersionStatus.draft;
  system_prompt = i.system_prompt;
  model_config = or_empty i.model_config;
  tools_config = or_empty i.tools_config;
  egress_policy = or_empty i.egress_policy;
}

commit_version : TemplateVersion → Store → Outcome TemplateVersion
commit_version v now =
    if accepts_version now v
    then (ok v, record now { versions = now.versions ++ v ∷ [] })
    else (err template_conflict, now)

pub create_template_version_draft :
    (new_id template_id : ℕ) → DraftInput → (seen now : Store) → Outcome TemplateVersion
unfolding get_template
create_template_version_draft new_id template_id i seen now = elim (get_template seen template_id) [
  | err e ↦ (err e, now)
  | ok _ ↦
      commit_version
        (draft_row new_id template_id (latest_version_no template_id seen.versions + 1) i) now
]

abbrev pub is_row : ℕ → ℕ → TemplateVersion → Bool
is_row template_id version_id v = v.id == version_id && v.template_id == template_id

get_template_version : Store → ℕ → ℕ → Result TemplateServiceError TemplateVersion
get_template_version db template_id version_id =
    elim (find? (is_row template_id version_id) db.versions) [
      | none ↦ err template_version_not_found
      | some v ↦ ok v
    ]

abbrev set_status : TemplateVersionStatus → TemplateVersion → TemplateVersion
set_status s v = record v { status = s }

-- `_archive_other_published_versions`
abbrev archive_other_published_versions : ℕ → ℕ → List TemplateVersion → List TemplateVersion
archive_other_published_versions template_id target =
    update_where
      (λ v. v.template_id == template_id && is_published v.status && not (v.id == target))
      (set_status TemplateVersionStatus.archived)

abbrev publish_row : ℕ → ℕ → Store → Store
publish_row template_id version_id db = record db {
  versions =
      update_where (is_row template_id version_id) (set_status TemplateVersionStatus.published)
        (archive_other_published_versions template_id version_id db.versions);
}

pub publish_template_version : (template_id version_id : ℕ) → Store → Outcome TemplateVersion
unfolding get_template_version
publish_template_version template_id version_id db =
    elim (get_template_version db template_id version_id) [
      | err e ↦ (err e, db)
      | ok version ↦ if is_archived version.status then (err template_lifecycle, db) else (
        ok (set_status TemplateVersionStatus.published version),
        publish_row template_id version_id db,
      )
    ]

pub rollback_template_version : (template_id version_id : ℕ) → Store → Outcome TemplateVersion
unfolding get_template_version
rollback_template_version template_id version_id db =
    elim (get_template_version db template_id version_id) [
      | err e ↦ (err e, db)
      | ok version ↦
          if is_archived version.status || is_published version.status
          then (
            ok (set_status TemplateVersionStatus.published version),
            publish_row template_id version_id db,
          )
          else (err template_lifecycle, db)
    ]
