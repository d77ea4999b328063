-- ===== src/Knowledge/Effects.antt =====
-- How publishing, rollback and indexing of knowledge versions act together: the statuses of
-- backend/src/kuuna_backend/domain/knowledge/service.py and jobs/indexing.py.
use kuuna_support_agents.Common.{
  ℕ, ◌≡◌, ◌≢◌, ap, ◌∙◌, Bool, true, false, not, ◌&&◌, some, List, [], ◌∷◌, ok, err, ◌==◌,
  if◌then◌else◌, find?, update_where, arith, Option-cases, inl, inr, find?-update_where,
  find?_holds,
}
use kuuna_support_agents.Models.{TemplateVersionStatus, is_published, is_ready, KnowledgeScope}
use kuuna_support_agents.Knowledge.{
  KnowledgeVersion, Store, lifecycle, is_row, of_doc, set_status, archive_other_published_versions,
  publish_row, publish_knowledge_version, rollback_knowledge_version, has_doc,
}
use kuuna_support_agents.Knowledge.Job.{Embedder, done, process_knowledge_version_job}
use kuuna_support_agents.Knowledge.Job.Indexed.{job-Writes}
use kuuna_support_agents.Knowledge.Invariant.{is_live}

abbrev published_rows : KnowledgeScope → ℕ → ℕ → List KnowledgeVersion → List KnowledgeVersion
published_rows s doc i vs =
    update_where (is_row s doc i) (set_status TemplateVersionStatus.published)
      (archive_other_published_versions s doc i vs)

find?-live :
    (s : KnowledgeScope) (doc i : ℕ) (vs : List KnowledgeVersion) (v : KnowledgeVersion)
    → find? (is_row s doc i) vs ≡ some v
    → find? (is_live s doc) (published_rows s doc i vs)
      ≡ some (set_status TemplateVersionStatus.published v)
find?-live s doc i [] v h = ground arith
find?-live s doc i (w ∷ vs) v h = ground (arith, find?-live s doc i vs v)

-- The row of the target, and the row of another version that is not PUBLISHED, after publishing.
find?-target :
    (s : KnowledgeScope) (doc i : ℕ) (vs : List KnowledgeVersion) (v : KnowledgeVersion)
    → find? (is_row s doc i) vs ≡ some v
    → find? (is_row s doc i) (published_rows s doc i vs)
      ≡ some (set_status TemplateVersionStatus.published v)
find?-target s doc i [] v h = ground arith
find?-target s doc i (w ∷ vs) v h = ground (arith, find?-target s doc i vs v)

find?-kept :
    (s : KnowledgeScope) (doc i j : ℕ) (vs : List KnowledgeVersion) (v : KnowledgeVersion)
    → j ≢ i
    → is_published v.status ≡ false
    → find? (is_row s doc j) vs ≡ some v
    → find? (is_row s doc j) (published_rows s doc i vs) ≡ some v
find?-kept s doc i j vs v n p h =
    rw
      (find?-update_where (is_row s doc j) (is_row s doc i)
        (set_status TemplateVersionStatus.published) (λ x. ground arith)
        (archive_other_published_versions s doc i vs))
      (rw
        (find?-update_where (is_row s doc j)
          (λ w. of_doc s doc w && is_published w.status && not (w.id == i))
          (set_status TemplateVersionStatus.archived) (λ x. ground arith) vs)
        (rw h (ground (arith, find?_holds (is_row s doc j) vs v h))))

-- What the job's update of one version's status leaves at the rows.
find?-ready :
    (s : KnowledgeScope) (doc i j : ℕ) (vs : List KnowledgeVersion) (v : KnowledgeVersion)
    → find? (is_row s doc j) vs ≡ some v
    → find?
        (is_row s doc j)
        (update_where (λ w. w.id == i) (set_status TemplateVersionStatus.ready) vs)
      ≡ some (if j == i then set_status TemplateVersionStatus.ready v else v)
find?-ready s doc i j vs v h =
    rw
      (find?-update_where (is_row s doc j) (λ w. w.id == i) (set_status TemplateVersionStatus.ready)
        (λ x. ground arith) vs)
      (rw h (ground (arith, find?_holds (is_row s doc j) vs v h)))

module _ {V : Type 0} where
  publish-writes :
      (up : Bool) (s : KnowledgeScope) (doc i : ℕ) (db after : Store V) (v : KnowledgeVersion)
      → publish_knowledge_version up s doc i db ≡ (ok v, after)
      → (w : KnowledgeVersion) × (find? (is_row s doc i) db.versions ≡ some w)
        × (v ≡ set_status TemplateVersionStatus.published w)
        × (after ≡ publish_row up s doc i db)
        × (has_doc db s doc ≡ true)
  unfolding publish_knowledge_version
  publish-writes up s doc i db after v h =
      elim (Option-cases (find? (is_row s doc i) db.versions)) [
        | inl e ↦ absurd (ground arith)
        | inr (w, e) ↦ (w, e, ground arith, ground arith, ground arith)
      ]

  -- If publishing a version succeeds, the version returned is the requested one of that document and
  -- is now its first PUBLISHED version, and every other version of the document that was not
  -- PUBLISHED keeps its row, a READY one included.
  pub publish_effect :
      (up : Bool) (s : KnowledgeScope) (doc i j : ℕ) (db after : Store V)
      (v other : KnowledgeVersion)
      → publish_knowledge_version up s doc i db ≡ (ok v, after)
      → j ≢ i
      → is_published other.status ≡ false
      → find? (is_row s doc j) db.versions ≡ some other
      → (is_row s doc i v ≡ true)
        × (find? (is_live s doc) after.versions ≡ some v)
        × (find? (is_row s doc j) after.versions ≡ some other)
  publish_effect up s doc i j db after v other h n p e =
      let (w, ew, ev, ea, _) = publish-writes up s doc i db after v h in
      rw (ea, ev)
        (
          find?_holds (is_row s doc i) db.versions w ew,
          find?-live s doc i db.versions w ew,
          find?-kept s doc i j db.versions other n p e,
        )

  done-Writes :
      (e : Embedder V) (i : ℕ) (db after : Store V)
      → process_knowledge_version_job e (some i) db ≡ (done, after)
      → (after.versions
          ≡ update_where (λ v. v.id == i) (set_status TemplateVersionStatus.ready) db.versions)
        × (after.common_docs ≡ db.common_docs)
        × (after.group_docs ≡ db.group_docs)
  done-Writes e i db after h = ground (arith, job-Writes e i db)

  has_doc-eq :
      (s : KnowledgeScope) (doc : ℕ) (db after : Store V)
      → after.common_docs ≡ db.common_docs
      → after.group_docs ≡ db.group_docs
      → has_doc after s doc ≡ has_doc db s doc
  unfolding has_doc
  has_doc-eq KnowledgeScope.common doc db after c g = rw c
  has_doc-eq KnowledgeScope.group doc db after c g = rw g

  rollback_refused :
      (up : Bool) (s : KnowledgeScope) (doc a : ℕ) (db : Store V) (va : KnowledgeVersion)
      → has_doc db s doc ≡ true
      → find? (is_row s doc a) db.versions ≡ some va
      → is_ready va.status ≡ true
      → (rollback_knowledge_version up s doc a db).0 ≡ err lifecycle
  unfolding rollback_knowledge_version
  rollback_refused up s doc a db va d e r = ground arith

  -- A version that has been indexed is READY and is not archived when another version takes over:
  -- if `b` of the same document is published and its indexing job is done, both `a` and `b` are
  -- READY, so both are retrievable, and a rollback to `a` is refused as a lifecycle error.
  pub two_versions_ready :
      (e : Embedder V) (up : Bool) (s : KnowledgeScope) (doc a b : ℕ) (db published after : Store V)
      (va vb : KnowledgeVersion)
      → a ≢ b
      → find? (is_row s doc a) db.versions ≡ some va
      → is_ready va.status ≡ true
      → publish_knowledge_version up s doc b db ≡ (ok vb, published)
      → process_knowledge_version_job e (some b) published ≡ (done, after)
      → (find? (is_row s doc a) after.versions ≡ some va)
        × (find? (is_row s doc b) after.versions ≡ some (set_status TemplateVersionStatus.ready vb))
        × ((rollback_knowledge_version up s doc a after).0 ≡ err lifecycle)
  two_versions_ready e up s doc a b db published after va vb n ea ra hp hj =
      let (w, ew, ev, ep, known) = publish-writes up s doc b db published vb hp in
      let (jv, jc, jg) = done-Writes e b published after hj in
      let pv = ap (λ (x : Store V). x.versions) ep in
      let kept : find? (is_row s doc a) published.versions ≡ some va =
        rw pv (find?-kept s doc b a db.versions va n (ground arith) ea) in
      let target : find? (is_row s doc b) published.versions
          ≡ some (set_status TemplateVersionStatus.published w) =
        rw pv (find?-target s doc b db.versions w ew) in
      let row_a : find? (is_row s doc a) after.versions ≡ some va =
        rw jv (find?-ready s doc b a published.versions va kept ∙ ap some (ground arith)) in
      let row_b : find? (is_row s doc b) after.versions
          ≡ some (set_status TemplateVersionStatus.ready vb) =
        rw jv (find?-ready s doc b b published.versions _ target ∙ ap some (ground arith)) in
      (
        row_a,
        row_b,
        rollback_refused up s doc a after va
            (has_doc-eq s doc db after (jc ∙ ap (λ (x : Store V). x.common_docs) ep)
                (jg ∙ ap (λ (x : Store V). x.group_docs) ep)
              ∙ known)
            row_a ra,
      )
