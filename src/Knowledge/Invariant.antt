-- ===== src/Knowledge/Invariant.antt =====
-- The invariant of the knowledge tables, and the inserts.
-- Keys, version numbers and the one published version of a knowledge document, kept by every
-- operation of backend/src/kuuna_backend/domain/knowledge/service.py and by the indexing job.
use kuuna_support_agents.Common.{
  ℕ, ◌≤◌, ◌≡◌, Bool, true, false, ◌&&◌, ◌||◌, [], ◌∷◌, ◌++◌, Text, text_eq, text_eq_iff, ◌==◌,
  count, arith, count-eq_zero_of_any, count-snoc_le_one, Bool-cases, inl, inr,
}
use kuuna_support_agents.Models.{is_published, KnowledgeScope, scope_eq}
use kuuna_support_agents.Knowledge.{
  KnowledgeCommonDoc, KnowledgeGroupDoc, KnowledgeVersion, Store, of_doc, commit_common,
  commit_group, commit_version, accepts_common, accepts_group, accepts_version, same_group_doc,
}

abbrev pub has_number : KnowledgeScope → ℕ → ℕ → KnowledgeVersion → Bool
has_number scope doc n v = of_doc scope doc v && v.version_no == n

abbrev pub is_live : KnowledgeScope → ℕ → KnowledgeVersion → Bool
is_live scope doc v = of_doc scope doc v && is_published v.status

pub record IsValid {V : Type 0} (db : Store V) : Type 0 where
  pub common_keys : (k : Text) → count (λ d. text_eq d.doc_key k) db.common_docs ≤ 1
  pub group_keys : (g k : Text) → count (same_group_doc g k) db.group_docs ≤ 1
  pub ids : (i : ℕ) → count (λ v. v.id == i) db.versions ≤ 1
  pub numbers :
      (scope : KnowledgeScope) (doc n : ℕ) → count (has_number scope doc n) db.versions ≤ 1
  pub live : (scope : KnowledgeScope) (doc : ℕ) → count (is_live scope doc) db.versions ≤ 1

pub scope_eq_iff : (a b : KnowledgeScope) → scope_eq a b ≡ true → a ≡ b
scope_eq_iff a b h = ground arith

module _ {V : Type 0} where
  pub commit_common-IsValid :
      (d : KnowledgeCommonDoc) (db : Store V) → IsValid db → IsValid (commit_common d db).1
  unfolding commit_common
  commit_common-IsValid d db h = elim (Bool-cases (accepts_common db d)) [
    | inr e ↦ rw e h
    | inl e ↦ rw e (record {
      common_keys = λ k.
          count-snoc_le_one (λ x. text_eq x.doc_key k) db.common_docs d (h.common_keys k)
            λ same.
              count-eq_zero_of_any (λ x. text_eq x.doc_key k)
                (λ x. x.id == d.id || text_eq x.doc_key d.doc_key)
                (λ x f. ground (
                  arith,
                  text_eq_iff d.doc_key k,
                  text_eq_iff x.doc_key k,
                  text_eq_iff x.doc_key d.doc_key,
                ))
                db.common_docs (ground arith);
      group_keys = h.group_keys;
      ids = h.ids;
      numbers = h.numbers;
      live = h.live;
    })
  ]

  pub commit_group-IsValid :
      (d : KnowledgeGroupDoc) (db : Store V) → IsValid db → IsValid (commit_group d db).1
  unfolding commit_group
  commit_group-IsValid d db h = elim (Bool-cases (accepts_group db d)) [
    | inr e ↦ rw e h
    | inl e ↦ rw e (record {
      common_keys = h.common_keys;
      group_keys = λ g k.
          count-snoc_le_one (same_group_doc g k) db.group_docs d (h.group_keys g k) λ same.
            count-eq_zero_of_any (same_group_doc g k)
              (λ x. x.id == d.id || same_group_doc d.provider_group_id d.doc_key x)
              (λ x f. ground (
                arith,
                text_eq_iff d.doc_key k,
                text_eq_iff x.doc_key k,
                text_eq_iff x.doc_key d.doc_key,
                text_eq_iff d.provider_group_id g,
                text_eq_iff x.provider_group_id g,
                text_eq_iff x.provider_group_id d.provider_group_id,
              ))
              db.group_docs (ground arith);
      ids = h.ids;
      numbers = h.numbers;
      live = h.live;
    })
  ]

  -- A test that clashes with no row counts at most one row after the insert.
  insert_version-count :
      (db : Store V) (p : KnowledgeVersion → Bool) (v : KnowledgeVersion)
      → count p db.versions ≤ 1
      → (p v ≡ true
          → (w : KnowledgeVersion) → p w ≡ true
          → (w.id == v.id || (of_doc v.scope v.doc_ref_id w && w.version_no == v.version_no))
            ≡ true)
      → accepts_version db v ≡ true
      → count p (db.versions ++ v ∷ []) ≤ 1
  insert_version-count db p v c clash e = count-snoc_le_one p db.versions v c λ pv.
      count-eq_zero_of_any p
        (λ w. w.id == v.id || (of_doc v.scope v.doc_ref_id w && w.version_no == v.version_no))
        (clash pv) db.versions (ground arith)

  pub commit_version-IsValid :
      (v : KnowledgeVersion) (db : Store V)
      → is_published v.status ≡ false
      → IsValid db
      → IsValid (commit_version v db).1
  unfolding commit_version
  commit_version-IsValid v db d h = elim (Bool-cases (accepts_version db v)) [
    | inr e ↦ rw e h
    | inl e ↦ rw e (record {
      common_keys = h.common_keys;
      group_keys = h.group_keys;
      ids = λ i. insert_version-count db (λ w. w.id == i) v (h.ids i) (λ pv w pw. ground arith) e;
      numbers = λ s doc n.
          insert_version-count db (has_number s doc n) v (h.numbers s doc n)
            (λ pv w pw. ground (arith, scope_eq_iff v.scope s)) e;
      live = λ s doc.
          insert_version-count db (is_live s doc) v (h.live s doc) (λ pv w pw. ground arith) e;
    })
  ]
