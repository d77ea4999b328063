-- ===== src/Builds/Job/Outcome.antt =====
-- How the build job leaves the row of its build: `process_template_build_job` of
-- backend/src/kuuna_backend/jobs/template_build.py.
use kuuna_support_agents.Common.{
  ℕ, zero, suc, ◌≡◌, refl, sym, subst, ◌++◌, ◌↔◌, ap, ◌∙◌, ◌⊎◌, inl, inr, Bool, true, false, Option,
  none, some, List, Text, codes, is_empty, find?, find?_holds, find?-update_where, arith,
  Bool-cases, if◌then◌else◌,
}
use kuuna_support_agents.Common.Json.{Json, Fields, field, end}
use kuuna_support_agents.Templates.{GroupTemplate, TemplateVersion}
use kuuna_support_agents.Runtime.{TemplateBuildStatus, is_succeeded}
use kuuna_support_agents.Builds.{Env, Store, TemplateBuild, has_id, find_template, find_version}
use kuuna_support_agents.Builds.Job.{
  Ended, returned, raised, accepts, put_row, commit, failed_row, mark_failed, succeeded_row,
  success_payload, after_inspect, after_build, image_ref_of, base_image_of, build_image_tag,
  build_cmd, inspect_cmd, logs, running_row, build_image, process_template_build_job,
}

-- How a job ended, and the row that it left.
abbrev pub View : Type 0
View = Ended × Option TemplateBuild

abbrev pub view : ℕ → Ended × Store → View
view i (ended, db) = (ended, find? (has_id i) db.builds)

find-put_row :
    (b c : TemplateBuild) (db : Store)
    → find? (has_id b.id) db.builds ≡ some c
    → find? (has_id b.id) (put_row b db).builds ≡ some b
find-put_row b c db h =
    find?-update_where (has_id b.id) (has_id b.id) (λ x. b) (λ x. ground arith) db.builds
    ∙ rw (h, find?_holds (has_id b.id) db.builds c h) refl

-- What a commit leaves.
abbrev committed : TemplateBuild → TemplateBuild → View
committed b c = if accepts b then (returned, some b) else (raised, some c)

view-commit :
    (e : Env) (b c : TemplateBuild) (event_type : Text) (payload : Fields) (db : Store)
    → find? (has_id b.id) db.builds ≡ some c
    → view b.id (commit e b event_type payload db) ≡ committed b c
unfolding commit
view-commit e b c event_type payload db h = elim (Bool-cases (accepts b)) [
  | inl a ↦ rw (a, find-put_row b c db h) refl
  | inr a ↦ rw (a, h) refl
]

-- The row of a build that failed.
abbrev IsFailed : TemplateBuild → Type 0
IsFailed b = (b.status ≡ TemplateBuildStatus.failed) × (b.image_ref ≡ none)

-- The job raised and left this row, or it marked the build as failed.
abbrev pub Fails : TemplateBuild → View → Type 0
Fails cur v =
    (v ≡ (raised, some cur)) ⊎ ((row : TemplateBuild) × (v ≡ (returned, some row)) × IsFailed row)

committed-Fails : (b cur : TemplateBuild) → Fails cur (committed (failed_row b) cur)
committed-Fails b cur = elim (Bool-cases (accepts (failed_row b))) [
  | inl a ↦ rw a (inr (failed_row b, refl, (refl, refl)))
  | inr a ↦ rw a (inl refl)
]

mark_failed-Fails :
    (e : Env) (b cur : TemplateBuild) (error : Text) (db : Store)
    → find? (has_id b.id) db.builds ≡ some cur
    → Fails cur (view b.id (mark_failed e b error db))
unfolding mark_failed
mark_failed-Fails e b cur error db h =
    rw
      (view-commit e (failed_row b) cur (codes "template_build.failed")
        (field "error" (Json.str error) end) db h)
      (committed-Fails b cur)

-- The row that a build leaves which succeeds with these logs and this inspection.
abbrev pub built_row :
    Env
    → TemplateBuild
    → (command : List Text) → (image_tag stdout stderr : Text) → (ℕ × Text × Text)
    → TemplateBuild
built_row e b command image_tag stdout stderr inspect =
    succeeded_row (record b { logs_ref = some (logs e command 0 stdout stderr) })
      (image_ref_of e image_tag inspect) image_tag

-- The build and the inspection of the image end, the first with the exit code 0, and the database takes
-- the row: its logs are not too long.
abbrev pub Builds :
    Env → TemplateBuild → (command : List Text) → (image_tag : Text) → TemplateBuild → Type 0
Builds e b command image_tag row =
    (stdout : Text) × (stderr : Text) × (inspect : ℕ × Text × Text) × (e.run command
      ≡ some (0, stdout, stderr))
    × (e.run (inspect_cmd e image_tag) ≡ some inspect)
    × (row ≡ built_row e b command image_tag stdout stderr inspect)
    × (accepts row ≡ true)

-- The ways in which a build of this row ends.
abbrev pub Settles :
    Env → TemplateBuild → (command : List Text) → (image_tag : Text) → View → Type 0
Settles e b command image_tag v =
    Fails b v
    ⊎ ((row : TemplateBuild) × (v ≡ (returned, some row)) × Builds e b command image_tag row)

after_inspect-Settles :
    (e : Env) (b : TemplateBuild) (command : List Text) (image_tag stdout stderr : Text)
    (o : Option (ℕ × Text × Text)) (db : Store)
    → e.run command ≡ some (0, stdout, stderr)
    → e.run (inspect_cmd e image_tag) ≡ o
    → find? (has_id b.id) db.builds ≡ some b
    → Settles e b command image_tag (
        view b.id (
          after_inspect e
            (record b { logs_ref = some (logs e command 0 stdout stderr) })
            image_tag
            o
            db))
unfolding after_inspect
after_inspect-Settles e b command image_tag stdout stderr none db run inspected h =
    rw h (inl (inl refl))
after_inspect-Settles e b command image_tag stdout stderr (some inspect) db run inspected h =
    let row = built_row e b command image_tag stdout stderr inspect in
    rw
      (view-commit e row b (codes "template_build.succeeded")
        (success_payload e b (image_ref_of e image_tag inspect)) db h)
      (elim (Bool-cases (accepts row)) [
        | inl a ↦ rw a (inr (row, refl, (stdout, stderr, inspect, run, inspected, refl, a)))
        | inr a ↦ rw a (inl (inl refl))
      ])

after_build-Settles :
    (e : Env) (b : TemplateBuild) (command : List Text) (image_tag : Text)
    (o : Option (ℕ × Text × Text)) (db : Store)
    → e.run command ≡ o
    → find? (has_id b.id) db.builds ≡ some b
    → Settles e b command image_tag (view b.id (after_build e b command image_tag o db))
unfolding after_build
after_build-Settles e b command image_tag none db run h = rw h (inl (inl refl))
after_build-Settles e b command image_tag (some (suc n, stdout, stderr)) db run h = inl (
    mark_failed-Fails e (record b { logs_ref = some (logs e command (suc n) stdout stderr) }) b
      (codes "docker build failed (exit " ++ e.show (suc n) ++ codes ")") db h)
after_build-Settles e b command image_tag (some (zero, stdout, stderr)) db run h =
    after_inspect-Settles e b command image_tag stdout stderr (e.run (inspect_cmd e image_tag)) db
      run refl h

-- The other way: these conditions are enough.
after_build-Builds :
    (e : Env) (b row : TemplateBuild) (command : List Text) (image_tag : Text) (db : Store)
    → find? (has_id b.id) db.builds ≡ some b
    → Builds e b command image_tag row
    → view b.id (after_build e b command image_tag (e.run command) db) ≡ (returned, some row)
unfolding after_build after_inspect
after_build-Builds e b row command image_tag db h (stdout, stderr, inspect, run, inspected, q, a) =
    let built = built_row e b command image_tag stdout stderr inspect in
    let taken : accepts built ≡ true = subst (λ r. accepts r ≡ true) q a in
    rw (run, inspected)
      (view-commit e built b (codes "template_build.succeeded")
          (success_payload e b (image_ref_of e image_tag inspect)) db h
        ∙ rw (taken, q) refl)

-- The command and the tag of a build.
abbrev pub tag_of : Env → TemplateBuild → GroupTemplate → Text
tag_of e b template = build_image_tag e template.key b.id

abbrev pub command_of : Env → TemplateBuild → GroupTemplate → TemplateVersion → List Text
command_of e b template version =
    build_cmd e (base_image_of e b) template.key (tag_of e b template) version.id

-- What a build takes to succeed with a row.
abbrev pub IsReady :
    Env → TemplateBuild → GroupTemplate → TemplateVersion → (row : TemplateBuild) → Type 0
IsReady e b template version row =
    (is_empty (base_image_of e b) ≡ false)
    × Builds e b (command_of e b template version) (tag_of e b template) row

abbrev pub Succeeds : View → (row : TemplateBuild) → Type 0
Succeeds v row = (v ≡ (returned, some row)) × (is_succeeded row.status ≡ true)

abbrev has_succeeded : View → Bool
has_succeeded (returned, some row) = is_succeeded row.status
has_succeeded _ = false

Fails-has_succeeded : (b : TemplateBuild) (v : View) → Fails b v → has_succeeded v ≡ false
Fails-has_succeeded b v (inl f) = rw f refl
Fails-has_succeeded b v (inr (row, f, (st, image))) = rw (f, st) refl

abbrev row_or : TemplateBuild → View → TemplateBuild
row_or d (ended, some row) = row
row_or d (ended, none) = d

-- A build either fails, or succeeds when it is ready.
abbrev Ends : Env → TemplateBuild → GroupTemplate → TemplateVersion → View → Type 0
Ends e b template version v =
    Fails b v
    ⊎ ((row : TemplateBuild) × (v ≡ (returned, some row)) × IsReady e b template version row)

IsReady-Succeeds :
    (e : Env) (b : TemplateBuild) (template : GroupTemplate) (version : TemplateVersion)
    (row : TemplateBuild)
    → IsReady e b template version row
    → is_succeeded row.status ≡ true
IsReady-Succeeds e b template version row (n, (stdout, stderr, inspect, run, inspected, q, a)) =
    rw q refl

Ends-Succeeds :
    (e : Env) (b : TemplateBuild) (template : GroupTemplate) (version : TemplateVersion) (v : View)
    (row : TemplateBuild)
    → Ends e b template version v
    → Succeeds v row
    → IsReady e b template version row
Ends-Succeeds e b template version v row (inl f) (s, k) =
    let no = Fails-has_succeeded b v f in
    let yes : has_succeeded v ≡ true = rw (s, k) refl in absurd (ground arith)
Ends-Succeeds e b template version v row (inr (other, q, ready)) (s, k) =
    subst (IsReady e b template version) (ap (row_or row) (sym q ∙ s)) ready

with_base :
    (e : Env) (b : TemplateBuild) (template : GroupTemplate) (version : TemplateVersion) (v : View)
    → is_empty (base_image_of e b) ≡ false
    → Settles e b (command_of e b template version) (tag_of e b template) v
    → Ends e b template version v
with_base e b template version v n (inl f) = inl f
with_base e b template version v n (inr (row, q, built)) = inr (row, q, (n, built))

build_image-Ends :
    (e : Env) (b : TemplateBuild) (template : GroupTemplate) (version : TemplateVersion)
    (db : Store)
    → find? (has_id b.id) db.builds ≡ some b
    → Ends e b template version (view b.id (build_image e b template version db))
unfolding build_image
build_image-Ends e b template version db h =
    let command = command_of e b template version in
    elim (Bool-cases (is_empty (base_image_of e b))) [
      | inl n ↦
          rw n (inl (mark_failed-Fails e b b (codes "missing base_image in build_inputs") db h))
      | inr n ↦
          let built = after_build e b command (tag_of e b template) (e.run command) db in
          let same : build_image e b template version db ≡ built = rw n refl in
          let settled =
            after_build-Settles e b command (tag_of e b template) (e.run command) db refl h in
          subst (λ r. Ends e b template version (view b.id r)) (sym same)
            (with_base e b template version (view b.id built) n settled)
    ]

build_image-Succeeds :
    (e : Env) (b : TemplateBuild) (template : GroupTemplate) (version : TemplateVersion)
    (db : Store) (row : TemplateBuild)
    → find? (has_id b.id) db.builds ≡ some b
    → Succeeds (view b.id (build_image e b template version db)) row
      ↔ IsReady e b template version row
build_image-Succeeds e b template version db row h = (
  Ends-Succeeds e b template version (view b.id (build_image e b template version db)) row
      (build_image-Ends e b template version db h),
  λ (n, built). (
    unfold build_image in
        rw n (
          after_build-Builds e b row (command_of e b template version) (tag_of e b template) db h
            built),
    IsReady-Succeeds e b template version row (n, built),
  ),
)

Ends-cases :
    (e : Env) (b : TemplateBuild) (template : GroupTemplate) (version : TemplateVersion) (v : View)
    → Ends e b template version v
    → Fails b v ⊎ ((row : TemplateBuild) × Succeeds v row)
Ends-cases e b template version v (inl f) = inl f
Ends-cases e b template version v (inr (row, q, ready)) =
    inr (row, (q, IsReady-Succeeds e b template version row ready))

-- The job of a build whose rows are there puts the row of the build in the state `running`. Then it
-- raises with the row so left, or it returns with the row marked as failed and without an image, or it
-- returns with a row that has succeeded. It leaves a row that has succeeded exactly if the build inputs
-- name a base image, the commands that build and inspect the image end, the first with the exit code 0,
-- and the columns are long enough for what the job writes to the row.
pub build_job_settles :
    (e : Env) (build_id : Text) (b : TemplateBuild) (template : GroupTemplate)
    (version : TemplateVersion) (db : Store) (row : TemplateBuild)
    → e.parse_uuid build_id ≡ some b.id
    → find? (has_id b.id) db.builds ≡ some b
    → find_template b.template_id db ≡ some template
    → find_version b.template_version_id db ≡ some version
    → (Fails (running_row b) (view b.id (process_template_build_job e build_id db))
        ⊎ ((r : TemplateBuild) × Succeeds (view b.id (process_template_build_job e build_id db)) r))
      × (Succeeds (view b.id (process_template_build_job e build_id db)) row
          ↔ IsReady e (running_row b) template version row)
unfolding process_template_build_job
build_job_settles e build_id b template version db row parsed found t v =
    let cur = running_row b in
    let here = find-put_row cur b db found in
    let after = put_row cur db in
    (
      rw (parsed, found, t, v)
          (Ends-cases e cur template version (view b.id (build_image e cur template version after))
            (build_image-Ends e cur template version after here)),
      rw (parsed, found, t, v) (build_image-Succeeds e cur template version after row here),
    )
