-- ===== src/Knowledge/Reach.antt =====
-- The invariant of the knowledge tables under every operation of backend/src/kuuna_backend/domain/knowledge/service.py and by the indexing job.
use kuuna_support_agents.Common.{
  ℕ, ◌+◌, ◌≤◌, ◌≡◌, Bool, true, ◌&&◌, ◌||◌, not, some, Text, refl, ◌==◌, if◌then◌else◌, count,
  update_where, arith, count-update_where_mono, Bool-cases, inl, inr,
}
use kuuna_support_agents.Models.{TemplateVersionStatus, is_published, KnowledgeScope, scope_eq}
use kuuna_support_agents.Knowledge.{
  KnowledgeVersion, Store, is_row, of_doc, set_status, draft_row, latest_version_no,
  archive_other_published_versions, publish_row, create_common_doc, create_group_doc,
  create_knowledge_version_draft, publish_knowledge_version, rollback_knowledge_version,
}
use kuuna_support_agents.Knowledge.Job.{Embedder, JobResult, process_knowledge_version_job}
use kuuna_support_agents.Knowledge.Job.Indexed.{Writes, job-Writes}
use kuuna_support_agents.Knowledge.Invariant.{
  IsValid, has_number, is_live, scope_eq_iff, commit_common-IsValid, commit_group-IsValid,
  commit_version-IsValid,
}

module _ {V : Type 0} where
  -- A test that publishing leaves alone counts no more rows than before.
  publish_row-count :
      (p q r : KnowledgeVersion → Bool) (up : Bool) (s : KnowledgeScope) (doc target : ℕ)
      (db : Store V)
      → ((v : KnowledgeVersion)
          → r (if is_row s doc target v then set_status TemplateVersionStatus.published v else v)
            ≡ true
          → q v ≡ true)
      → ((v : KnowledgeVersion)
          → q (
              if of_doc s doc v && is_published v.status && not (v.id == target)
              then set_status TemplateVersionStatus.archived v
              else v)
            ≡ true
          → p v ≡ true)
      → count r (publish_row up s doc target db).versions ≤ count p db.versions
  publish_row-count p q r up s doc target db outer inner = omega (
    arith,
    count-update_where_mono (is_row s doc target) q r (set_status TemplateVersionStatus.published)
        outer (archive_other_published_versions s doc target db.versions),
    count-update_where_mono (λ v. of_doc s doc v && is_published v.status && not (v.id == target)) p
        q (set_status TemplateVersionStatus.archived) inner db.versions,
  )

  publish_row-live :
      (up : Bool) (s : KnowledgeScope) (doc target : ℕ) (s' : KnowledgeScope) (doc' : ℕ)
      (db : Store V)
      → IsValid db
      → count (is_live s' doc') (publish_row up s doc target db).versions ≤ 1
  publish_row-live up s doc target s' doc' db h = elim (Bool-cases (scope_eq s' s && doc' == doc)) [
    | inl same ↦ omega (
      arith,
      h.ids target,
      publish_row-count (λ v. v.id == target)
          (λ v. of_doc s doc v && is_published v.status || v.id == target) (is_live s' doc') up s
          doc target db (λ v e. ground (arith, scope_eq_iff s' s)) (λ v e. ground arith),
    )
    | inr other ↦ omega (
      arith,
      h.live s' doc',
      publish_row-count (is_live s' doc') (is_live s' doc') (is_live s' doc') up s doc target db
          (λ v e. ground (arith, scope_eq_iff v.scope s', scope_eq_iff v.scope s))
          (λ v e. ground arith),
    )
  ]

  publish_row-IsValid :
      (up : Bool) (s : KnowledgeScope) (doc target : ℕ) (db : Store V)
      → IsValid db
      → IsValid (publish_row up s doc target db)
  publish_row-IsValid up s doc target db h = record {
    common_keys = h.common_keys;
    group_keys = h.group_keys;
    ids = λ i.
        let p = λ (v : KnowledgeVersion). v.id == i in
        omega (
          arith,
          h.ids i,
          publish_row-count p p p up s doc target db (λ v e. ground arith) (λ v e. ground arith),
        );
    numbers = λ s' doc' n.
        let p = has_number s' doc' n in
        omega (
          arith,
          h.numbers s' doc' n,
          publish_row-count p p p up s doc target db (λ v e. ground arith) (λ v e. ground arith),
        );
    live = λ s' doc'. publish_row-live up s doc target s' doc' db h;
  }

  publish-IsValid :
      (up : Bool) (s : KnowledgeScope) (doc v : ℕ) (db : Store V)
      → IsValid db
      → IsValid (publish_knowledge_version up s doc v db).1
  unfolding publish_knowledge_version
  publish-IsValid up s doc v db h = ground (arith, publish_row-IsValid up s doc v db h)

  rollback-IsValid :
      (up : Bool) (s : KnowledgeScope) (doc v : ℕ) (db : Store V)
      → IsValid db
      → IsValid (rollback_knowledge_version up s doc v db).1
  unfolding rollback_knowledge_version
  rollback-IsValid up s doc v db h = ground (arith, publish_row-IsValid up s doc v db h)

  ready-count :
      (p : KnowledgeVersion → Bool) (i : ℕ) (db : Store V)
      → ((v : KnowledgeVersion)
          → p (if v.id == i then set_status TemplateVersionStatus.ready v else v) ≡ true
          → p v ≡ true)
      → count p db.versions ≤ 1
      → count p (update_where (λ v. v.id == i) (set_status TemplateVersionStatus.ready) db.versions)
        ≤ 1
  ready-count p i db keep h = omega (
    arith,
    count-update_where_mono (λ v. v.id == i) p p (set_status TemplateVersionStatus.ready) keep
        db.versions,
  )

  Writes-IsValid :
      (i : ℕ) (db : Store V) (r : JobResult) (after : Store V)
      → Writes i db r after
      → IsValid db
      → IsValid after
  Writes-IsValid i db r after (inl (_, same)) h = rw same h
  Writes-IsValid i db r after (inr (_, ev, ec, eg)) h = record {
    common_keys = rw ec h.common_keys;
    group_keys = rw eg h.group_keys;
    ids = λ j. rw ev (ready-count (λ v. v.id == j) i db (λ v e. ground arith) (h.ids j));
    numbers = λ s doc n.
        rw ev (ready-count (has_number s doc n) i db (λ v e. ground arith) (h.numbers s doc n));
    live = λ s doc. rw ev (ready-count (is_live s doc) i db (λ v e. ground arith) (h.live s doc));
  }

  create_common-IsValid :
      (i : ℕ) (key title : Text) (seen now : Store V)
      → IsValid now
      → IsValid (create_common_doc i key title seen now).1
  unfolding create_common_doc
  create_common-IsValid i key title seen now h =
      ground (arith, commit_common-IsValid (record { id = i; doc_key = key; title = title }) now h)

  create_group-IsValid :
      (i : ℕ) (group key title : Text) (seen now : Store V)
      → IsValid now
      → IsValid (create_group_doc i group key title seen now).1
  unfolding create_group_doc
  create_group-IsValid i group key title seen now h = ground (
    arith,
    commit_group-IsValid
        (record { id = i; provider_group_id = group; doc_key = key; title = title }) now h,
  )

  create_draft-IsValid :
      (i : ℕ) (s : KnowledgeScope) (doc : ℕ) (content : Text) (seen now : Store V)
      → IsValid now
      → IsValid (create_knowledge_version_draft i s doc content seen now).1
  unfolding create_knowledge_version_draft
  create_draft-IsValid i s doc content seen now h = ground (
    arith,
    commit_version-IsValid (draft_row i s doc (latest_version_no s doc seen.versions + 1) content)
        now refl h,
  )

-- One call of the service or one run of the indexing job.
pub data Step {V : Type 0} : Store V → Store V → Type 0 where
  create_common :
      (i : ℕ) (key title : Text) (seen now : Store V)
      → Step now (create_common_doc i key title seen now).1
  create_group :
      (i : ℕ) (group key title : Text) (seen now : Store V)
      → Step now (create_group_doc i group key title seen now).1
  draft :
      (i : ℕ) (s : KnowledgeScope) (doc : ℕ) (content : Text) (seen now : Store V)
      → Step now (create_knowledge_version_draft i s doc content seen now).1
  publish :
      (up : Bool) (s : KnowledgeScope) (doc v : ℕ) (now : Store V)
      → Step now (publish_knowledge_version up s doc v now).1
  rollback :
      (up : Bool) (s : KnowledgeScope) (doc v : ℕ) (now : Store V)
      → Step now (rollback_knowledge_version up s doc v now).1
  index :
      (e : Embedder V) (v : ℕ) (now : Store V)
      → Step now (process_knowledge_version_job e (some v) now).1

pub data Reach {V : Type 0} (start : Store V) : Store V → Type 0 where
  here : Reach start start
  next : {a b : Store V} → Reach start a → Step a b → Reach start b

Step-IsValid : {V : Type 0} {a b : Store V} → Step a b → IsValid a → IsValid b
Step-IsValid (create_common i k t seen now) h = create_common-IsValid i k t seen now h
Step-IsValid (create_group i g k t seen now) h = create_group-IsValid i g k t seen now h
Step-IsValid (draft i s d c seen now) h = create_draft-IsValid i s d c seen now h
Step-IsValid (publish up s d v now) h = publish-IsValid up s d v now h
Step-IsValid (rollback up s d v now) h = rollback-IsValid up s d v now h
Step-IsValid (index e v now) h =
    let (r, after) = process_knowledge_version_job e (some v) now in
    Writes-IsValid v now r after (job-Writes e v now) h

-- Whatever calls and indexing jobs run, in whatever order, and however stale the reads of the
-- inserts are: from a valid store the document keys stay unique in their scope, version ids and
-- numbers stay unique, and each document has at most one PUBLISHED version.
pub knowledge_history-IsValid : {V : Type 0} {a b : Store V} → IsValid a → Reach a b → IsValid b
knowledge_history-IsValid h here = h
knowledge_history-IsValid h (next r s) = Step-IsValid s (knowledge_history-IsValid h r)
