-- ===== src/Knowledge.antt =====
-- Knowledge lifecycle: backend/src/kuuna_backend/domain/knowledge/service.py, and the indexing job
-- `process_knowledge_version_job` of backend/src/kuuna_backend/jobs/indexing.py, which makes a
-- version retrievable. As in Templates, a call that inserts reads `seen` and commits into `now`.
-- `V` is the type of an embedding vector, which the model service computes.
pub mod Job
pub mod Invariant
pub mod Reach
pub mod Effects
mod Tests
use kuuna_support_agents.Common.{
  ℕ, ◌+◌, ◌≡◌, Bool, true, false, not, ◌&&◌, ◌||◌, Option, none, some, List, [], ◌∷◌, ◌++◌, max,
  Text, text_eq, Result, ok, err, ◌==◌, if◌then◌else◌, find?, any, update_where,
}
use kuuna_support_agents.Models.{
  TemplateVersionStatus, is_published, is_archived, KnowledgeScope, scope_eq,
}

pub record KnowledgeCommonDoc : Type 0 where
  pub id : ℕ
  pub doc_key : Text
  pub title : Text

pub record KnowledgeGroupDoc : Type 0 where
  pub id : ℕ
  pub provider_group_id : Text
  pub doc_key : Text
  pub title : Text

pub record KnowledgeVersion : Type 0 where
  pub id : ℕ
  pub scope : KnowledgeScope
  pub doc_ref_id : ℕ
  pub version_no : ℕ
  pub status : TemplateVersionStatus
  pub content_markdown : Text

pub record Embedding (V : Type 0) : Type 0 where
  pub scope : KnowledgeScope
  pub source_version_id : ℕ
  pub chunk_no : ℕ
  pub content : Text
  pub token_count : ℕ
  pub embedding : V

-- The tables, and the versions handed to the queue for indexing.
pub record Store (V : Type 0) : Type 0 where
  pub common_docs : List KnowledgeCommonDoc
  pub group_docs : List KnowledgeGroupDoc
  pub versions : List KnowledgeVersion
  pub embeddings : List (Embedding V)
  pub enqueued : List ℕ

pub data KnowledgeServiceError : Type 0 where
  doc_not_found version_not_found conflict lifecycle : KnowledgeServiceError

abbrev pub is_row : KnowledgeScope → ℕ → ℕ → KnowledgeVersion → Bool
is_row scope doc version_id v =
    v.id == version_id && (scope_eq v.scope scope && v.doc_ref_id == doc)

abbrev pub of_doc : KnowledgeScope → ℕ → KnowledgeVersion → Bool
of_doc scope doc v = scope_eq v.scope scope && v.doc_ref_id == doc

abbrev pub set_status : TemplateVersionStatus → KnowledgeVersion → KnowledgeVersion
set_status s v = record v { status = s }

-- `select(func.max(version_no))`, with 0 where there is no version yet.
pub latest_version_no : KnowledgeScope → ℕ → List KnowledgeVersion → ℕ
latest_version_no scope doc [] = 0
latest_version_no scope doc (v ∷ vs) =
    let rest = latest_version_no scope doc vs in
    if of_doc scope doc v then max v.version_no rest else rest

abbrev pub draft_row :
    (new_id : ℕ) → KnowledgeScope → (doc version_no : ℕ) → Text → KnowledgeVersion
draft_row new_id scope doc version_no content = record {
  id = new_id;
  scope = scope;
  doc_ref_id = doc;
  version_no = version_no;
  status = TemplateVersionStatus.draft;
  content_markdown = content;
}

abbrev pub Outcome : Type 0 → Type 0 → Type 0
Outcome V A = Result KnowledgeServiceError A × Store V

abbrev pub same_group_doc : Text → Text → KnowledgeGroupDoc → Bool
same_group_doc group key e = text_eq e.provider_group_id group && text_eq e.doc_key key

-- `_archive_other_published_versions`: it looks for PUBLISHED rows alone.
abbrev pub archive_other_published_versions :
    KnowledgeScope → ℕ → ℕ → List KnowledgeVersion → List KnowledgeVersion
archive_other_published_versions scope doc target =
    update_where (λ v. of_doc scope doc v && is_published v.status && not (v.id == target))
      (set_status TemplateVersionStatus.archived)

-- `enqueue_knowledge_indexing` after the commit; an error of the queue is logged and dropped.
abbrev enqueue : Bool → ℕ → List ℕ → List ℕ
enqueue true version_id jobs = jobs ++ version_id ∷ []
enqueue false version_id jobs = jobs

module _ {V : Type 0} where
  abbrev accepts_common : Store V → KnowledgeCommonDoc → Bool
  accepts_common db d = not (any (λ e. e.id == d.id || text_eq e.doc_key d.doc_key) db.common_docs)

  -- `db.add`, `db.commit` and the handler of `IntegrityError`.
  pub commit_common : KnowledgeCommonDoc → Store V → Outcome V KnowledgeCommonDoc
  commit_common d now =
      if accepts_common now d
      then (ok d, record now { common_docs = now.common_docs ++ d ∷ [] })
      else (err conflict, now)

  pub create_common_doc :
      (new_id : ℕ) (doc_key title : Text) (seen now : Store V) → Outcome V KnowledgeCommonDoc
  create_common_doc new_id doc_key title seen now =
      elim (find? (λ e. text_eq e.doc_key doc_key) seen.common_docs) [
        | some _ ↦ (err conflict, now)
        | none ↦ commit_common (record { id = new_id; doc_key = doc_key; title = title }) now
      ]

  abbrev accepts_group : Store V → KnowledgeGroupDoc → Bool
  accepts_group db d =
      not (any (λ e. e.id == d.id || same_group_doc d.provider_group_id d.doc_key e) db.group_docs)

  pub commit_group : KnowledgeGroupDoc → Store V → Outcome V KnowledgeGroupDoc
  commit_group d now =
      if accepts_group now d
      then (ok d, record now { group_docs = now.group_docs ++ d ∷ [] })
      else (err conflict, now)

  pub create_group_doc :
      (new_id : ℕ) (provider_group_id doc_key title : Text) (seen now : Store V)
      → Outcome V KnowledgeGroupDoc
  create_group_doc new_id provider_group_id doc_key title seen now =
      elim (find? (same_group_doc provider_group_id doc_key) seen.group_docs) [
        | some _ ↦ (err conflict, now)
        | none ↦
            commit_group
              (record {
                id = new_id;
                provider_group_id = provider_group_id;
                doc_key = doc_key;
                title = title;
              })
              now
      ]

  -- `_get_doc_or_raise`: whether the document is there, in the table of its scope.
  has_doc : Store V → KnowledgeScope → ℕ → Bool
  has_doc db KnowledgeScope.common doc = any (λ e. e.id == doc) db.common_docs
  has_doc db KnowledgeScope.group doc = any (λ e. e.id == doc) db.group_docs

  -- The primary key and the unique constraint on scope, document and number.
  abbrev accepts_version : Store V → KnowledgeVersion → Bool
  accepts_version db v = not (
      any (λ w. w.id == v.id || (of_doc v.scope v.doc_ref_id w && w.version_no == v.version_no))
        db.versions)

  pub commit_version : KnowledgeVersion → Store V → Outcome V KnowledgeVersion
  commit_version v now =
      if accepts_version now v
      then (ok v, record now { versions = now.versions ++ v ∷ [] })
      else (err conflict, now)

  pub create_knowledge_version_draft :
      (new_id : ℕ) (scope : KnowledgeScope) (doc : ℕ) (content : Text) (seen now : Store V)
      → Outcome V KnowledgeVersion
  unfolding has_doc
  create_knowledge_version_draft new_id scope doc content seen now =
      if has_doc seen scope doc
      then commit_version
          (draft_row new_id scope doc (latest_version_no scope doc seen.versions + 1) content) now
      else (err doc_not_found, now)

  -- `_get_knowledge_version`
  get_knowledge_version :
      Store V → KnowledgeScope → ℕ → ℕ → Result KnowledgeServiceError KnowledgeVersion
  get_knowledge_version db scope doc version_id =
      elim (find? (is_row scope doc version_id) db.versions) [
        | none ↦ err version_not_found
        | some v ↦ ok v
      ]

  abbrev pub publish_row : Bool → KnowledgeScope → ℕ → ℕ → Store V → Store V
  publish_row queue_up scope doc version_id db = record db {
    versions =
        update_where (is_row scope doc version_id) (set_status TemplateVersionStatus.published)
          (archive_other_published_versions scope doc version_id db.versions);
    enqueued = enqueue queue_up version_id db.enqueued;
  }

  pub publish_knowledge_version :
      (queue_up : Bool) (scope : KnowledgeScope) (doc version_id : ℕ)
      → Store V
      → Outcome V KnowledgeVersion
  unfolding has_doc get_knowledge_version
  publish_knowledge_version queue_up scope doc version_id db =
      if has_doc db scope doc
      then (elim (get_knowledge_version db scope doc version_id) [
        | err e ↦ (err e, db)
        | ok version ↦ if is_archived version.status then (err lifecycle, db) else (
          ok (set_status TemplateVersionStatus.published version),
          publish_row queue_up scope doc version_id db,
        )
      ])
      else (err doc_not_found, db)

  pub rollback_knowledge_version :
      (queue_up : Bool) (scope : KnowledgeScope) (doc version_id : ℕ)
      → Store V
      → Outcome V KnowledgeVersion
  unfolding has_doc get_knowledge_version
  rollback_knowledge_version queue_up scope doc version_id db =
      if has_doc db scope doc
      then (elim (get_knowledge_version db scope doc version_id) [
        | err e ↦ (err e, db)
        | ok version ↦
            if is_archived version.status || is_published version.status
            then (
              ok (set_status TemplateVersionStatus.published version),
              publish_row queue_up scope doc version_id db,
            )
            else (err lifecycle, db)
      ])
      else (err doc_not_found, db)
