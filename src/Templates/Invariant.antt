-- ===== src/Templates/Invariant.antt =====
-- Keys, version numbers and the one published version of a template, kept by every operation of
-- backend/src/kuuna_backend/domain/templates/service.py under any interleaving of the inserts.
use kuuna_support_agents.Common.{
  ℕ, ◌≤◌, ◌≡◌, Bool, true, false, ◌&&◌, ◌||◌, not, [], ◌∷◌, ◌++◌, Text, text_eq, text_eq_iff, ◌==◌,
  if◌then◌else◌, count, arith, count-update_where_mono, count-eq_zero_of_any, count-snoc_le_one,
  Bool-cases, inl, inr, refl, ◌+◌,
}
use kuuna_support_agents.Models.{TemplateVersionStatus, is_published}
use kuuna_support_agents.Templates.{
  GroupTemplate, TemplateVersion, Store, DraftInput, create_template, create_template_version_draft,
  commit_template, commit_version, draft_row, latest_version_no, publish_template_version,
  rollback_template_version, publish_row, accepts_version, accepts_template, is_row, set_status,
  archive_other_published_versions,
}

abbrev pub has_id : ℕ → TemplateVersion → Bool
has_id i v = v.id == i

abbrev pub has_number : ℕ → ℕ → TemplateVersion → Bool
has_number t n v = v.template_id == t && v.version_no == n

abbrev pub is_live : ℕ → TemplateVersion → Bool
is_live t v = v.template_id == t && is_published v.status

pub record IsValid (db : Store) : Type 0 where
  pub keys : (k : Text) → count (λ t. text_eq t.key k) db.templates ≤ 1
  pub ids : (i : ℕ) → count (has_id i) db.versions ≤ 1
  pub numbers : (t n : ℕ) → count (has_number t n) db.versions ≤ 1
  pub live : (t : ℕ) → count (is_live t) db.versions ≤ 1

module _ (db : Store) (h : IsValid db) where
  insert_template-keys :
      (t : GroupTemplate) (k : Text)
      → accepts_template db t ≡ true
      → count (λ u. text_eq u.key k) (db.templates ++ t ∷ []) ≤ 1
  insert_template-keys t k e =
      count-snoc_le_one (λ u. text_eq u.key k) db.templates t (h.keys k)
        λ same.
          count-eq_zero_of_any (λ u. text_eq u.key k) (λ u. u.id == t.id || text_eq u.key t.key)
            (λ u f.
              ground (arith, text_eq_iff t.key k, text_eq_iff u.key k, text_eq_iff u.key t.key))
            db.templates (ground arith)

  insert_version-count :
      (p : TemplateVersion → Bool) (v : TemplateVersion)
      → count p db.versions ≤ 1
      → (p v ≡ true
          → (w : TemplateVersion) → p w ≡ true
          → (w.id == v.id || (w.template_id == v.template_id && w.version_no == v.version_no))
            ≡ true)
      → accepts_version db v ≡ true
      → count p (db.versions ++ v ∷ []) ≤ 1
  insert_version-count p v c clash e = count-snoc_le_one p db.versions v c λ pv.
      count-eq_zero_of_any p
        (λ w. w.id == v.id || (w.template_id == v.template_id && w.version_no == v.version_no))
        (clash pv) db.versions (ground arith)

  insert_version-IsValid :
      (v : TemplateVersion)
      → is_published v.status ≡ false
      → accepts_version db v ≡ true
      → IsValid (record db { versions = db.versions ++ v ∷ [] })
  insert_version-IsValid v d e = record {
    keys = h.keys;
    ids = λ i. insert_version-count (has_id i) v (h.ids i) (λ pv w pw. ground arith) e;
    numbers =
        λ t n. insert_version-count (has_number t n) v (h.numbers t n) (λ pv w pw. ground arith) e;
    live = λ t. insert_version-count (is_live t) v (h.live t) (λ pv w pw. ground arith) e;
  }

-- A test that publishing leaves alone counts no more rows than before.
publish_row-count :
    (p q r : TemplateVersion → Bool) (t target : ℕ) (db : Store)
    → ((v : TemplateVersion)
        → r (if is_row t target v then set_status TemplateVersionStatus.published v else v) ≡ true
        → q v ≡ true)
    → ((v : TemplateVersion)
        → q (
            if v.template_id == t && is_published v.status && not (v.id == target)
            then set_status TemplateVersionStatus.archived v
            else v)
          ≡ true
        → p v ≡ true)
    → count r (publish_row t target db).versions ≤ count p db.versions
publish_row-count p q r t target db outer inner = omega (
  arith,
  count-update_where_mono (is_row t target) q r (set_status TemplateVersionStatus.published) outer
      (archive_other_published_versions t target db.versions),
  count-update_where_mono (λ v. v.template_id == t && is_published v.status && not (v.id == target))
      p q (set_status TemplateVersionStatus.archived) inner db.versions,
)

publish_row-live :
    (t target t' : ℕ) (db : Store)
    → IsValid db
    → count (is_live t') (publish_row t target db).versions ≤ 1
publish_row-live t target t' db h = elim (Bool-cases (t' == t)) [
  | inl same ↦ omega (
    arith,
    h.ids target,
    publish_row-count (has_id target)
        (λ v. v.template_id == t && is_published v.status || has_id target v) (is_live t') t target
        db (λ v e. ground arith) (λ v e. ground arith),
  )
  | inr other ↦ omega (
    arith,
    h.live t',
    publish_row-count (is_live t') (is_live t') (is_live t') t target db (λ v e. ground arith)
        (λ v e. ground arith),
  )
]

publish_row-IsValid : (t target : ℕ) (db : Store) → IsValid db → IsValid (publish_row t target db)
publish_row-IsValid t target db h = record {
  keys = h.keys;
  ids = λ i. omega (
    arith,
    h.ids i,
    publish_row-count (has_id i) (has_id i) (has_id i) t target db (λ v e. ground arith)
        (λ v e. ground arith),
  );
  numbers = λ t' n. omega (
    arith,
    h.numbers t' n,
    publish_row-count (has_number t' n) (has_number t' n) (has_number t' n) t target db
        (λ v e. ground arith) (λ v e. ground arith),
  );
  live = λ t'. publish_row-live t target t' db h;
}

commit_template-IsValid :
    (t : GroupTemplate) (now : Store) → IsValid now → IsValid (commit_template t now).1
unfolding commit_template
commit_template-IsValid t now h = elim (Bool-cases (accepts_template now t)) [
  | inl e ↦ rw e (record {
    keys = λ k. insert_template-keys now h t k e;
    ids = h.ids;
    numbers = h.numbers;
    live = h.live;
  })
  | inr e ↦ rw e h
]

commit_version-IsValid :
    (v : TemplateVersion) (now : Store)
    → is_published v.status ≡ false
    → IsValid now
    → IsValid (commit_version v now).1
unfolding commit_version
commit_version-IsValid v now d h = elim (Bool-cases (accepts_version now v)) [
  | inl e ↦ rw e (insert_version-IsValid now h v d e)
  | inr e ↦ rw e h
]

create_template-IsValid :
    (new_id : ℕ) (key name : Text) (seen now : Store)
    → IsValid now
    → IsValid (create_template new_id key name seen now).1
unfolding create_template
create_template-IsValid new_id key name seen now h =
    ground (
      arith,
      commit_template-IsValid (record { id = new_id; key = key; display_name = name }) now h,
    )

create_draft-IsValid :
    (new_id template_id : ℕ) (i : DraftInput) (seen now : Store)
    → IsValid now
    → IsValid (create_template_version_draft new_id template_id i seen now).1
unfolding create_template_version_draft
create_draft-IsValid new_id template_id i seen now h = ground (
  arith,
  commit_version-IsValid
      (draft_row new_id template_id (latest_version_no template_id seen.versions + 1) i) now refl h,
)

publish-IsValid : (t v : ℕ) (db : Store) → IsValid db → IsValid (publish_template_version t v db).1
unfolding publish_template_version
publish-IsValid t v db h = ground (arith, publish_row-IsValid t v db h)

rollback-IsValid :
    (t v : ℕ) (db : Store) → IsValid db → IsValid (rollback_template_version t v db).1
unfolding rollback_template_version
rollback-IsValid t v db h = ground (arith, publish_row-IsValid t v db h)

-- One call of the service, by one of several sessions. The checks of an insert may have read any
-- earlier store.
pub data Step : Store → Store → Type 0 where
  create :
      (new_id : ℕ) (key name : Text) (seen now : Store)
      → Step now (create_template new_id key name seen now).1
  draft :
      (new_id t : ℕ) (i : DraftInput) (seen now : Store)
      → Step now (create_template_version_draft new_id t i seen now).1
  publish : (t v : ℕ) (now : Store) → Step now (publish_template_version t v now).1
  rollback : (t v : ℕ) (now : Store) → Step now (rollback_template_version t v now).1

pub data Reach (start : Store) : Store → Type 0 where
  here : Reach start start
  next : {a b : Store} → Reach start a → Step a b → Reach start b

Step-IsValid : {a b : Store} → Step a b → IsValid a → IsValid b
Step-IsValid (create i k n seen now) h = create_template-IsValid i k n seen now h
Step-IsValid (draft i t d seen now) h = create_draft-IsValid i t d seen now h
Step-IsValid (publish t v now) h = publish-IsValid t v now h
Step-IsValid (rollback t v now) h = rollback-IsValid t v now h

-- Whatever calls are made, in whatever order, and however stale the reads of the inserts are: from
-- a valid store template keys stay unique, version ids and version numbers stay unique, and each
-- template has at most one published version.
pub templates_history-IsValid : {a b : Store} → IsValid a → Reach a b → IsValid b
templates_history-IsValid h here = h
templates_history-IsValid h (next r s) = Step-IsValid s (templates_history-IsValid h r)
