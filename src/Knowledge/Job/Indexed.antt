-- ===== src/Knowledge/Job/Indexed.antt =====
-- What the indexing job of backend/src/kuuna_backend/jobs/indexing.py leaves in the tables.
use mathlib.Core.List.{append-nil}
use kuuna_support_agents.Common.{
  ℕ, ◌+◌, ◌≡◌, ◌≢◌, refl, ap, ◌∙◌, Bool, not, Option, none, some, List, [], ◌∷◌, ◌++◌, Text, ◌==◌,
  find?, filter, update_where, map, arith, Option-cases, inl, inr, ◌⊎◌,
}
use kuuna_support_agents.Models.{TemplateVersionStatus}
use kuuna_support_agents.Indexing.{chunk_markdown, max_chunk_chars}
use kuuna_support_agents.Indexing.Split.{Covers}
use kuuna_support_agents.Indexing.Chunks.{chunk_markdown-Covers}
use kuuna_support_agents.Knowledge.{KnowledgeVersion, Embedding, Store, set_status}
use kuuna_support_agents.Knowledge.Job.{
  Embedder, JobResult, done, raised, Built, no_end, failed, built, embed_chunks, number_rows,
  build_rows, from_version, store_rows, process_knowledge_version_job,
}

-- The numbers of a run of chunks.
abbrev pub numbered_from : ℕ → List Text → List ℕ
numbered_from n [] = []
numbered_from n (c ∷ cs) = n ∷ numbered_from (n + 1) cs

module _ {A : Type 0} where
  filter-append : (p : A → Bool) (xs ys : List A) → filter p (xs ++ ys) ≡ filter p xs ++ filter p ys
  filter-append p [] ys = refl
  filter-append p (x ∷ xs) ys = ground (arith, filter-append p xs ys)

  filter-filter-not : (p : A → Bool) (xs : List A) → filter p (filter (λ x. not (p x)) xs) ≡ []
  filter-filter-not p [] = refl
  filter-filter-not p (x ∷ xs) = ground (arith, filter-filter-not p xs)

  filter-filter_self : (p : A → Bool) (xs : List A) → filter p (filter p xs) ≡ filter p xs
  filter-filter_self p [] = refl
  filter-filter_self p (x ∷ xs) = ground (arith, filter-filter_self p xs)

module _ {V : Type 0} where
  -- The rows built for version `v` from chunk number `n` on.
  abbrev Rows : KnowledgeVersion → ℕ → List Text → List (Embedding V) → Type 0
  Rows v n cs rows =
      (map (λ r. r.content) rows ≡ cs)
      × (map (λ r. r.chunk_no) rows ≡ numbered_from n cs)
      × (filter (from_version v.id) rows ≡ rows)
      × (filter (λ r. not (from_version v.id r)) rows ≡ [])

  number_rows-Rows :
      (v : KnowledgeVersion) (n : ℕ) (cs : List Text) (es : List V) (rows : List (Embedding V))
      → number_rows v n cs es ≡ some rows
      → Rows v n cs rows
  unfolding number_rows
  number_rows-Rows v n [] [] rows h = ground arith
  number_rows-Rows v n [] (e ∷ es) rows h = ground arith
  number_rows-Rows v n (c ∷ cs) [] rows h = ground arith
  number_rows-Rows v n (c ∷ cs) (e ∷ es) [] h = ground arith
  number_rows-Rows v n (c ∷ cs) (e ∷ es) (r ∷ rows) h =
      ground (arith, number_rows-Rows v (n + 1) cs es rows)

  build_rows-Rows :
      (e : Embedder V) (v : KnowledgeVersion) (chunks : List Text) (rows : List (Embedding V))
      → build_rows e v (some chunks) ≡ built rows
      → Rows v 1 chunks rows
  unfolding build_rows
  build_rows-Rows e v chunks rows h = elim (Option-cases (embed_chunks e chunks)) [
    | inl none_here ↦ absurd (ground arith)
    | inr (vs, e1) ↦ elim (Option-cases (number_rows v 1 chunks vs)) [
      | inl none_there ↦ absurd (ground arith)
      | inr (rs, e2) ↦ number_rows-Rows v 1 chunks vs rows (ground arith)
    ]
  ]

-- The job has run to its end for version `v`: its rows are the chunks of its text, numbered from 1,
-- the rows of other versions are those there were, and the version is READY.
abbrev pub IsIndexed : {V : Type 0} → KnowledgeVersion → Store V → Store V → Type 0
IsIndexed v db after =
    (chunks : List Text) × (chunk_markdown max_chunk_chars v.content_markdown ≡ some chunks)
    × (map (λ r. r.content) (filter (from_version v.id) after.embeddings) ≡ chunks)
    × (map (λ r. r.chunk_no) (filter (from_version v.id) after.embeddings) ≡ numbered_from 1 chunks)
    × (filter (λ r. not (from_version v.id r)) after.embeddings
        ≡ filter (λ r. not (from_version v.id r)) db.embeddings)
    × (find? (λ w. w.id == v.id) after.versions ≡ some (set_status TemplateVersionStatus.ready v))

find?-ready :
    (i : ℕ) (vs : List KnowledgeVersion) (v : KnowledgeVersion)
    → find? (λ w. w.id == i) vs ≡ some v
    → find?
        (λ w. w.id == i)
        (update_where (λ w. w.id == i) (set_status TemplateVersionStatus.ready) vs)
      ≡ some (set_status TemplateVersionStatus.ready v)
find?-ready i [] v h = ground arith
find?-ready i (w ∷ vs) v h = ground (arith, find?-ready i vs v)

Covers-some :
    (m : ℕ) (s : Text) (o : Option (List Text)) → Covers m s o → (ps : List Text) × (o ≡ some ps)
Covers-some m s none h = absurd h
Covers-some m s (some ps) h = (ps, refl)

module _ {V : Type 0} where
  store_rows-IsIndexed :
      (v : KnowledgeVersion) (db : Store V) (chunks : List Text) (rows : List (Embedding V))
      → find? (λ w. w.id == v.id) db.versions ≡ some v
      → chunk_markdown max_chunk_chars v.content_markdown ≡ some chunks
      → Rows v 1 chunks rows
      → IsIndexed v db (store_rows v.id db (built rows)).1
  store_rows-IsIndexed v db chunks rows found cut r =
      let mine = from_version {V = V} v.id in
      let others = λ (x : Embedding V). not (mine x) in
      let own : filter mine (filter others db.embeddings ++ rows) ≡ rows =
        filter-append mine (filter others db.embeddings) rows
        ∙ ap (λ xs. xs ++ filter mine rows) (filter-filter-not mine db.embeddings)
        ∙ r.2 in
      let rest : filter others (filter others db.embeddings ++ rows) ≡ filter others db.embeddings =
        filter-append others (filter others db.embeddings) rows
        ∙ ap (λ xs. filter others (filter others db.embeddings) ++ xs) r.3
        ∙ append-nil _
        ∙ filter-filter_self others db.embeddings in
      unfold store_rows in
      (
        chunks,
        cut,
        ap (map (λ x. x.content)) own ∙ r.0,
        ap (map (λ x. x.chunk_no)) own ∙ r.1,
        rest,
        find?-ready v.id db.versions v found,
      )

  abbrev Outcome : KnowledgeVersion → Store V → JobResult → Store V → Type 0
  Outcome v db r after = ((r ≡ done) × IsIndexed v db after) ⊎ ((r ≡ raised) × (after ≡ db))

  job-eq-store_rows :
      (e : Embedder V) (v : KnowledgeVersion) (db : Store V) (chunks : List Text)
      → find? (λ w. w.id == v.id) db.versions ≡ some v
      → chunk_markdown max_chunk_chars v.content_markdown ≡ some chunks
      → process_knowledge_version_job e (some v.id) db
        ≡ store_rows v.id db (build_rows e v (some chunks))
  unfolding process_knowledge_version_job
  job-eq-store_rows e v db chunks found cut = rw (found, process_knowledge_version_job) (rw cut)

  build_rows-ne-no_end :
      (e : Embedder V) (v : KnowledgeVersion) (chunks : List Text)
      → build_rows e v (some chunks) ≢ no_end
  unfolding build_rows
  build_rows-ne-no_end e v chunks = ground arith

  store_rows-Outcome :
      (e : Embedder V) (v : KnowledgeVersion) (db : Store V) (chunks : List Text) (b : Built V)
      → find? (λ w. w.id == v.id) db.versions ≡ some v
      → chunk_markdown max_chunk_chars v.content_markdown ≡ some chunks
      → build_rows e v (some chunks) ≡ b
      → let (r, after) = store_rows v.id db b in Outcome v db r after
  store_rows-Outcome e v db chunks no_end found cut eq = absurd (build_rows-ne-no_end e v chunks eq)
  store_rows-Outcome e v db chunks failed found cut eq = unfold store_rows in inr (refl, refl)
  store_rows-Outcome e v db chunks (built rows) found cut eq =
      let kept =
        store_rows-IsIndexed v db chunks rows found cut (build_rows-Rows e v chunks rows eq) in
      unfold store_rows in inl (refl, kept)

  -- For a known version the job never runs for ever. Either it raises and leaves the store as it
  -- was, or it is done: the version's rows are then exactly the chunks of its text, numbered from 1,
  -- no other version's rows are touched, and the version is READY.
  pub job_outcome :
      (e : Embedder V) (v : KnowledgeVersion) (db : Store V)
      → find? (λ w. w.id == v.id) db.versions ≡ some v
      → let (r, after) = process_knowledge_version_job e (some v.id) db in
        ((r ≡ done) × IsIndexed v db after) ⊎ ((r ≡ raised) × (after ≡ db))
  job_outcome e v db found =
      let (chunks, cut) =
        Covers-some _ _ _
          (chunk_markdown-Covers max_chunk_chars v.content_markdown (omega arith)) in
      rw (job-eq-store_rows e v db chunks found cut)
        (store_rows-Outcome e v db chunks (build_rows e v (some chunks)) found cut refl)

module _ {V : Type 0} where
  -- What the job writes to the tables other than the embeddings.
  abbrev pub Writes : ℕ → Store V → JobResult → Store V → Type 0
  Writes i db r after =
      ((r ≢ done) × (after ≡ db))
      ⊎ ((r ≡ done)
          × (after.versions
              ≡ update_where (λ v. v.id == i) (set_status TemplateVersionStatus.ready) db.versions)
          × (after.common_docs ≡ db.common_docs)
          × (after.group_docs ≡ db.group_docs))

  store_rows-Writes :
      (i : ℕ) (db : Store V) (b : Built V)
      → let (r, after) = store_rows i db b in Writes i db r after
  unfolding store_rows
  store_rows-Writes i db no_end = inl (ground arith, refl)
  store_rows-Writes i db failed = inl (ground arith, refl)
  store_rows-Writes i db (built rows) = inr (refl, refl, refl, refl)

  pub job-Writes :
      (e : Embedder V) (i : ℕ) (db : Store V)
      → let (r, after) = process_knowledge_version_job e (some i) db in Writes i db r after
  job-Writes e i db = elim (Option-cases (find? (λ v. v.id == i) db.versions)) [
    | inl missing ↦
        unfold process_knowledge_version_job in
        rw (missing, process_knowledge_version_job) (inl (ground arith, refl))
    | inr (v, found) ↦
        let kept =
          store_rows-Writes i db
            (build_rows e v (chunk_markdown max_chunk_chars v.content_markdown)) in
        unfold process_knowledge_version_job in rw (found, process_knowledge_version_job) kept
  ]
