-- ===== src/Knowledge/Tests.antt =====
-- The knowledge lifecycle at concrete stores.
use kuuna_support_agents.Common.{
  ℕ, ◌≡◌, refl, true, false, none, some, [], ◌∷◌, codes, ok, err, find?, arith, ◌⊎◌, strip,
}
use kuuna_support_agents.Indexing
use kuuna_support_agents.Models.{TemplateVersionStatus, KnowledgeScope}
use kuuna_support_agents.Knowledge.{
  KnowledgeVersion, Store, set_status, is_row, create_common_doc, create_knowledge_version_draft,
  publish_knowledge_version, rollback_knowledge_version, lifecycle,
}
use kuuna_support_agents.Knowledge.Job.{Embedder, done, raised, process_knowledge_version_job}
use kuuna_support_agents.Knowledge.Job.Indexed.{IsIndexed, job_outcome}
use kuuna_support_agents.Knowledge.Invariant.{IsValid, is_live}
use kuuna_support_agents.Knowledge.Reach.{Step, here, next, knowledge_history-IsValid}
use kuuna_support_agents.Knowledge.Effects.{publish_effect, two_versions_ready}

abbrev version : ℕ → ℕ → TemplateVersionStatus → KnowledgeVersion
version i n s = record {
  id = i;
  scope = KnowledgeScope.common;
  doc_ref_id = 1;
  version_no = n;
  status = s;
  content_markdown = codes "opening hours";
}

-- Vectors are numbers here; the model service is off, so the job uses the pseudo embedding.
abbrev offline : Embedder ℕ
offline = record {
  configured = false;
  create_text_embeddings = λ ts. none;
  dimensions = λ v. 1536;
  pseudo_embedding = λ t. 7;
}

abbrev empty : Store ℕ
empty = record { common_docs = []; group_docs = []; versions = []; embeddings = []; enqueued = [] }

empty-IsValid : IsValid empty
empty-IsValid = record {
  common_keys = λ k. omega arith;
  group_keys = λ g k. omega arith;
  ids = λ i. omega arith;
  numbers = λ s d n. omega arith;
  live = λ s d. omega arith;
}

abbrev with_doc : Store ℕ
with_doc = (create_common_doc 1 (codes "faq") (codes "FAQ") empty empty).1

abbrev with_draft : Store ℕ
with_draft =
    (create_knowledge_version_draft 10 KnowledgeScope.common 1 (codes "hi") with_doc with_doc).1

abbrev with_published : Store ℕ
with_published = (publish_knowledge_version true KnowledgeScope.common 1 10 with_draft).1

knowledge_history-IsValid_example :
    IsValid (process_knowledge_version_job offline (some 10) with_published).1
knowledge_history-IsValid_example = knowledge_history-IsValid empty-IsValid (
    next
      (next
        (next (next here (Step.create_common 1 (codes "faq") (codes "FAQ") empty empty))
          (Step.draft 10 KnowledgeScope.common 1 (codes "hi") with_doc with_doc))
        (Step.publish true KnowledgeScope.common 1 10 with_draft))
      (Step.index offline 10 with_published))

-- Version 10 is indexed, version 11 is a draft.
abbrev shop : Store ℕ
shop = record {
  common_docs = record { id = 1; doc_key = codes "faq"; title = codes "FAQ" } ∷ [];
  group_docs = [];
  versions =
      version 10 1 TemplateVersionStatus.ready ∷ version 11 2 TemplateVersionStatus.draft ∷ [];
  embeddings = [];
  enqueued = [];
}

abbrev eleven : KnowledgeVersion
eleven = version 11 2 TemplateVersionStatus.published

abbrev republished : Store ℕ
republished = record shop {
  versions =
      version 10 1 TemplateVersionStatus.ready ∷ version 11 2 TemplateVersionStatus.published ∷ [];
  enqueued = 11 ∷ [];
}

publish_eleven :
    publish_knowledge_version true KnowledgeScope.common 1 11 shop ≡ (ok eleven, republished)
unfolding publish_knowledge_version
publish_eleven = refl

publish_effect_example :
    (is_row KnowledgeScope.common 1 11 eleven ≡ true)
    × (find? (is_live KnowledgeScope.common 1) republished.versions ≡ some eleven)
    × (find? (is_row KnowledgeScope.common 1 10) republished.versions
        ≡ some (version 10 1 TemplateVersionStatus.ready))
publish_effect_example =
    publish_effect true KnowledgeScope.common 1 11 10 shop republished eleven
      (version 10 1 TemplateVersionStatus.ready) publish_eleven (omega arith) refl refl

abbrev indexed : Store ℕ
indexed = (process_knowledge_version_job offline (some 11) republished).1

index_eleven : process_knowledge_version_job offline (some 11) republished ≡ (done, indexed)
unfolding process_knowledge_version_job Indexing.chunk_markdown strip
index_eleven = refl

two_versions_ready_example :
    (find? (is_row KnowledgeScope.common 1 10) indexed.versions
      ≡ some (version 10 1 TemplateVersionStatus.ready))
    × (find? (is_row KnowledgeScope.common 1 11) indexed.versions
        ≡ some (set_status TemplateVersionStatus.ready eleven))
    × ((rollback_knowledge_version true KnowledgeScope.common 1 10 indexed).0 ≡ err lifecycle)
two_versions_ready_example =
    two_versions_ready offline true KnowledgeScope.common 1 10 11 shop republished indexed
      (version 10 1 TemplateVersionStatus.ready) eleven (omega arith) refl refl publish_eleven
      index_eleven

job_outcome_example :
    let (r, after) = process_knowledge_version_job offline (some 11) republished in
    ((r ≡ done) × IsIndexed eleven republished after) ⊎ ((r ≡ raised) × (after ≡ republished))
job_outcome_example = job_outcome offline eleven republished refl
