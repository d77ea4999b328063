-- ===== src/Knowledge/Job.antt =====
-- `process_knowledge_version_job` of backend/src/kuuna_backend/jobs/indexing.py. The embedding model
-- and the hash-based pseudo embedding compute floats and are parameters; their answers are checked
-- as the code checks them.
pub mod Indexed
use kuuna_support_agents.Common.{
  ℕ, ◌+◌, ◌≡◌, Bool, true, false, not, ◌&&◌, Option, none, some, List, [], ◌∷◌, ◌++◌, Text, codes,
  ◌==◌, if◌then◌else◌, find?, filter, all, update_where, length, map, strip, is_empty,
}
use kuuna_support_agents.Models.{TemplateVersionStatus}
use kuuna_support_agents.Indexing.{chunk_markdown, max_chunk_chars, token_count}
use kuuna_support_agents.Knowledge.{KnowledgeVersion, Embedding, Store, set_status}

abbrev pub embedding_dimensions : ℕ
embedding_dimensions = 1536

-- What the job asks of the embedding integration; `none` is an `OpenAIIntegrationError`.
pub record Embedder (V : Type 0) : Type 0 where
  pub configured : Bool
  pub create_text_embeddings : List Text → Option (List V)
  pub dimensions : V → ℕ
  pub pseudo_embedding : Text → V

-- `chunk if chunk.strip() else "__empty__"`
abbrev pub normalize_chunk : Text → Text
normalize_chunk chunk = if is_empty (strip chunk) then codes "__empty__" else chunk

pub data JobResult : Type 0 where
  done skipped raised hung : JobResult

-- How the work before the first write ended.
pub data Built (V : Type 0) : Type 0 where
  no_end : Built V
  failed : Built V
  built : List (Embedding V) → Built V

module _ {V : Type 0} where
  -- The two checks on the answer of the model service.
  checked : Embedder V → List Text → Option (List V) → Option (List V)
  checked e chunks none = none
  checked e chunks (some vs) =
      if length vs == length chunks && all (λ v. e.dimensions v == embedding_dimensions) vs
      then some vs
      else none

  -- `_embed_chunks`; `none` is an exception.
  pub embed_chunks : Embedder V → List Text → Option (List V)
  unfolding checked
  embed_chunks e [] = some []
  embed_chunks e (c ∷ cs) =
      let normalized = map normalize_chunk (c ∷ cs) in
      if e.configured
      then checked e (c ∷ cs) (e.create_text_embeddings normalized)
      else some (map e.pseudo_embedding normalized)

  -- `enumerate(zip(chunks, chunk_embeddings, strict=True), start=1)`, and the row made of each.
  pub number_rows : KnowledgeVersion → ℕ → List Text → List V → Option (List (Embedding V))
  number_rows v n [] [] = some []
  number_rows v n [] (e ∷ es) = none
  number_rows v n (c ∷ cs) [] = none
  number_rows v n (c ∷ cs) (e ∷ es) = elim (number_rows v (n + 1) cs es) [
    | none ↦ none
    | some rows ↦ some (
        record {
          scope = v.scope;
          source_version_id = v.id;
          chunk_no = n;
          content = c;
          token_count = token_count c;
          embedding = e;
        }
        ∷ rows)
  ]

  abbrev or_failed : Option (List (Embedding V)) → Built V
  or_failed none = failed
  or_failed (some rows) = built rows

  build_rows : Embedder V → KnowledgeVersion → Option (List Text) → Built V
  unfolding embed_chunks number_rows
  build_rows e v none = no_end
  build_rows e v (some chunks) = elim (embed_chunks e chunks) [
    | none ↦ failed
    | some vs ↦ or_failed (number_rows v 1 chunks vs)
  ]

  abbrev pub from_version : ℕ → Embedding V → Bool
  from_version i row = row.source_version_id == i

  -- The old rows of the version go, the new ones come, and the version is READY; an exception rolls
  -- all of it back.
  pub store_rows : ℕ → Store V → Built V → JobResult × Store V
  store_rows i db no_end = (hung, db)
  store_rows i db failed = (raised, db)
  store_rows i db (built rows) = (
    done,
    record db {
      embeddings = filter (λ row. not (from_version i row)) db.embeddings ++ rows;
      versions = update_where (λ v. v.id == i) (set_status TemplateVersionStatus.ready) db.versions;
    },
  )

  -- `none` is an id that is no UUID.
  unfoldable pub process_knowledge_version_job :
      Embedder V → Option ℕ → Store V → JobResult × Store V
  unfolding build_rows store_rows
  process_knowledge_version_job e none db = (skipped, db)
  process_knowledge_version_job e (some i) db = elim (find? (λ v. v.id == i) db.versions) [
    | none ↦ (skipped, db)
    | some v ↦ store_rows i db (build_rows e v (chunk_markdown max_chunk_chars v.content_markdown))
  ]
