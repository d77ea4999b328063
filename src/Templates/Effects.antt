-- ===== src/Templates/Effects.antt =====
-- What a successful or failed call of backend/src/kuuna_backend/domain/templates/service.py leaves
-- behind.
use kuuna_support_agents.Common.{
  ◌∙◌, ap, ℕ, ◌+◌, ◌<◌, ◌≡◌, ◌≢◌, refl, true, false, ◌&&◌, ◌||◌, not, ◌↔◌, some, List, [], ◌∷◌,
  ◌++◌, ok, err, ◌==◌, if◌then◌else◌, find?, filter, any, update_where, arith, Option-cases, inl,
  inr, map, ltb, all, Text, ◌⊎◌, find?-update_where, find?_holds, any-append, any-eq_false_of_find?,
}
use kuuna_support_agents.Models.{TemplateVersionStatus, is_published, is_archived}
use kuuna_support_agents.Templates.{
  TemplateServiceError, create_template, commit_template, TemplateVersion, Store, DraftInput,
  template_lifecycle, template_conflict, create_template_version_draft, publish_template_version,
  rollback_template_version, publish_row, is_row, set_status, archive_other_published_versions,
  latest_version_no, draft_row, commit_version,
}
use kuuna_support_agents.Templates.Invariant.{is_live}

abbrev published_rows : ℕ → ℕ → List TemplateVersion → List TemplateVersion
published_rows t i vs =
    update_where (is_row t i) (set_status TemplateVersionStatus.published)
      (archive_other_published_versions t i vs)

-- The published version of the template is now the target.
find?-live :
    (t i : ℕ) (vs : List TemplateVersion) (v : TemplateVersion)
    → find? (is_row t i) vs ≡ some v
    → find? (is_live t) (published_rows t i vs)
      ≡ some (set_status TemplateVersionStatus.published v)
find?-live t i [] v h = ground arith
find?-live t i (w ∷ vs) v h = ground (arith, find?-live t i vs v)

abbrev retire : TemplateVersion → TemplateVersion
retire v = if is_published v.status then set_status TemplateVersionStatus.archived v else v

-- Another version of the template is archived if it was published.
find?-other :
    (t i j : ℕ) (vs : List TemplateVersion) (v : TemplateVersion)
    → j ≢ i
    → find? (is_row t j) vs ≡ some v
    → find? (is_row t j) (published_rows t i vs) ≡ some (retire v)
find?-other t i j vs v n h =
    rw
      (find?-update_where (is_row t j) (is_row t i) (set_status TemplateVersionStatus.published)
        (λ x. ground arith) (archive_other_published_versions t i vs))
      (rw
        (find?-update_where (is_row t j)
          (λ v. v.template_id == t && is_published v.status && not (v.id == i))
          (set_status TemplateVersionStatus.archived) (λ x. ground arith) vs)
        (rw h (ground (arith, find?_holds (is_row t j) vs v h))))

-- The versions of the other templates stay as they are.
filter-others :
    (t i : ℕ) (vs : List TemplateVersion)
    → filter (λ w. not (w.template_id == t)) (published_rows t i vs)
      ≡ filter (λ w. not (w.template_id == t)) vs
filter-others t i [] = refl
filter-others t i (w ∷ vs) = ground (arith, filter-others t i vs)

-- A version without its status.
abbrev pub content : TemplateVersion → TemplateVersion
content = set_status TemplateVersionStatus.draft

map-content :
    (t i : ℕ) (vs : List TemplateVersion) → map content (published_rows t i vs) ≡ map content vs
map-content t i [] = refl
map-content t i (w ∷ vs) = ground (arith, map-content t i vs)

-- What a call that returned a version found and did.
abbrev Published : ℕ → ℕ → Store → TemplateVersion → Store → Type 0
Published t i db v after =
    (w : TemplateVersion) × (find? (is_row t i) db.versions ≡ some w)
    × (v ≡ set_status TemplateVersionStatus.published w)
    × (after ≡ publish_row t i db)

publish-Published :
    (t i : ℕ) (db : Store) (v : TemplateVersion)
    → (publish_template_version t i db).0 ≡ ok v
    → Published t i db v (publish_template_version t i db).1
unfolding publish_template_version
publish-Published t i db v h = elim (Option-cases (find? (is_row t i) db.versions)) [
  | inl e ↦ absurd (ground arith)
  | inr (w, e) ↦ (w, e, ground arith, ground arith)
]

rollback-Published :
    (t i : ℕ) (db : Store) (v : TemplateVersion)
    → (rollback_template_version t i db).0 ≡ ok v
    → Published t i db v (rollback_template_version t i db).1
unfolding rollback_template_version
rollback-Published t i db v h = elim (Option-cases (find? (is_row t i) db.versions)) [
  | inl e ↦ absurd (ground arith)
  | inr (w, e) ↦ (w, e, ground arith, ground arith)
]

abbrev pub TakesOver : ℕ → ℕ → Store → TemplateVersion → Store → Type 0
TakesOver t i db v after =
    (v.id ≡ i)
    × (v.template_id ≡ t)
    × (find? (is_live t) after.versions ≡ some v)
    × (filter (λ w. not (w.template_id == t)) after.versions
        ≡ filter (λ w. not (w.template_id == t)) db.versions)
    × (map content after.versions ≡ map content db.versions)

Published-TakesOver :
    (t i : ℕ) (db : Store) (v : TemplateVersion) (after : Store)
    → Published t i db v after
    → TakesOver t i db v after
Published-TakesOver t i db v after (w, e, ev, ea) =
    let row = find?_holds (is_row t i) db.versions w e in
    rw (ea, ev)
      (
        ground (arith, row),
        ground (arith, row),
        find?-live t i db.versions w e,
        filter-others t i db.versions,
        map-content t i db.versions,
      )

-- If a publication or a rollback returns a version, it is the requested one and is now the first
-- published version of its template; the versions of other templates are unchanged, and no version
-- has changed in anything but its status.
pub publish-TakesOver :
    (t i : ℕ) (db after : Store) (v : TemplateVersion)
    → (publish_template_version t i db ≡ (ok v, after))
      ⊎ (rollback_template_version t i db ≡ (ok v, after))
    → TakesOver t i db v after
publish-TakesOver t i db after v (inl h) =
    rw (← ap (λ o. o.1) h)
      (Published-TakesOver t i db v _ (publish-Published t i db v (ap (λ o. o.0) h)))
publish-TakesOver t i db after v (inr h) =
    rw (← ap (λ o. o.1) h)
      (Published-TakesOver t i db v _ (rollback-Published t i db v (ap (λ o. o.0) h)))

-- A publication of a known version is refused as a lifecycle error exactly if the version is
-- archived, and a rollback exactly if it is neither archived nor published.
pub refusals :
    (t i : ℕ) (db : Store) (v : TemplateVersion)
    → find? (is_row t i) db.versions ≡ some v
    → (((publish_template_version t i db).0 ≡ err template_lifecycle)
        ↔ (is_archived v.status ≡ true))
      × (((rollback_template_version t i db).0 ≡ err template_lifecycle)
          ↔ (is_archived v.status || is_published v.status ≡ false))
unfolding publish_template_version rollback_template_version
refusals t i db v e = (ground arith, ground arith)

-- A call that raises, of any of the four operations, leaves the store that its commit met as it was.
pub error_keeps_store :
    (n t i : ℕ) (key name : Text) (d : DraftInput) (seen now after : Store)
    (e : TemplateServiceError)
    → (create_template n key name seen now ≡ (err e, after))
      ⊎ (create_template_version_draft n t d seen now ≡ (err e, after))
      ⊎ (publish_template_version t i now ≡ (err e, after))
      ⊎ (rollback_template_version t i now ≡ (err e, after))
    → after ≡ now
unfolding create_template commit_template create_template_version_draft commit_version
    publish_template_version rollback_template_version
error_keeps_store n t i key name d seen now after e h = ground arith

retired :
    (v : TemplateVersion)
    → is_published v.status ≡ true
    → retire v ≡ set_status TemplateVersionStatus.archived v
retired v p = ground arith

archived_row :
    (t i : ℕ) (db : Store) (v : TemplateVersion)
    → is_published v.status ≡ true
    → find? (is_row t i) db.versions ≡ some (set_status TemplateVersionStatus.archived v)
    → ((publish_template_version t i db).0 ≡ err template_lifecycle)
      × ((rollback_template_version t i db).0 ≡ ok v)
      × (find? (is_live t) (rollback_template_version t i db).1.versions ≡ some v)
unfolding publish_template_version rollback_template_version
archived_row t i db v p e =
    ground (arith, find?-live t i db.versions (set_status TemplateVersionStatus.archived v) e)

-- If version `a` of a template is published and another version `b` is then published, publishing
-- `a` again is refused, and a rollback to `a` succeeds and makes it the published version again.
pub rollback_restores :
    (t a b : ℕ) (db : Store) (va vb : TemplateVersion)
    → a ≢ b
    → find? (is_row t a) db.versions ≡ some va
    → is_published va.status ≡ true
    → (publish_template_version t b db).0 ≡ ok vb
    → let after = (publish_template_version t b db).1 in
      ((publish_template_version t a after).0 ≡ err template_lifecycle)
      × ((rollback_template_version t a after).0 ≡ ok va)
      × (find? (is_live t) (rollback_template_version t a after).1.versions ≡ some va)
rollback_restores t a b db va vb n ea pa hb =
    let (w, ew, ev, after) = publish-Published t b db vb hb in
    rw after (
      archived_row t a (publish_row t b db) va pa
        (find?-other t b a db.versions va n ea ∙ ap some (retired va pa)))

-- Every version of the template has a smaller number than the next draft.
latest_bounds :
    (t n : ℕ) (vs : List TemplateVersion)
    → latest_version_no t vs < n
    → all (λ w. not (w.template_id == t) || ltb w.version_no n) vs ≡ true
unfolding latest_version_no
latest_bounds t n [] h = refl
latest_bounds t n (w ∷ ws) h = ground (arith, latest_bounds t n ws)

number_is_free :
    (t i : ℕ) (vs : List TemplateVersion) (n : ℕ)
    → any (λ w. w.id == i) vs ≡ false
    → latest_version_no t vs < n
    → any (λ w. w.id == i || (w.template_id == t && w.version_no == n)) vs ≡ false
unfolding latest_version_no
number_is_free t i [] n h k = refl
number_is_free t i (w ∷ vs) n h k = ground (arith, number_is_free t i vs n)

-- With no write in between, a draft for a known template under an unused id is never refused; it
-- is appended with a number above that of every other version of the template.
pub draft_succeeds :
    (new_id t : ℕ) (i : DraftInput) (db : Store)
    → any (λ u. u.id == t) db.templates ≡ true
    → any (λ w. w.id == new_id) db.versions ≡ false
    → let v = draft_row new_id t (latest_version_no t db.versions + 1) i in
      (create_template_version_draft new_id t i db db
        ≡ (ok v, record db { versions = db.versions ++ v ∷ [] }))
      × (all (λ w. not (w.template_id == t) || ltb w.version_no v.version_no) db.versions ≡ true)
unfolding create_template_version_draft commit_version
draft_succeeds new_id t i db known fresh = (
  ground (
    arith,
    any-eq_false_of_find? (λ u. u.id == t) db.templates,
    number_is_free t new_id db.versions (latest_version_no t db.versions + 1) fresh (omega arith),
  ),
  latest_bounds t (latest_version_no t db.versions + 1) db.versions (omega arith),
)

-- Two sessions that draft from the same snapshot cannot both get the number: the second commit is
-- refused as a conflict, and the store keeps what the first one wrote.
pub draft_race :
    (first second t : ℕ) (i j : DraftInput) (db : Store) (v : TemplateVersion)
    → (create_template_version_draft first t i db db).0 ≡ ok v
    → let after = (create_template_version_draft first t i db db).1 in
      create_template_version_draft second t j db after ≡ (err template_conflict, after)
unfolding create_template_version_draft commit_version
draft_race first second t i j db v h =
    let new = draft_row first t (latest_version_no t db.versions + 1) i in
    ground (
      arith,
      any-append
          (λ w.
            w.id == second
            || (w.template_id == t && w.version_no == (latest_version_no t db.versions + 1)))
          db.versions (new ∷ []),
    )
