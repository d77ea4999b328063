-- ===== src/Builds/Job/History.antt =====
-- The builds over a history of queued builds and jobs: the rows of template_builds that
-- backend/src/kuuna_backend/domain/template_builds/service.py and
-- backend/src/kuuna_backend/jobs/template_build.py write.
use kuuna_support_agents.Common.{
  ℕ, zero, suc, ◌≤◌, ◌≡◌, refl, ◌∙◌, subst, sym, Bool, true, false, ◌&&◌, not, Option, none, some,
  List, [], ◌∷◌, ◌++◌, Text, codes, is_empty, strip, take, all, all-append, all-update_where,
  all-find?, any, count, count-update_where_mono, count-snoc_le_one, count-eq_zero_of_any, find?,
  arith, Bool-cases, Option-cases, inl, inr,
}
use kuuna_support_agents.Common.Json.{Json, Items, Fields, arr, nil, cons, field, end}
use kuuna_support_agents.Templates.{GroupTemplate, TemplateVersion}
use kuuna_support_agents.Runtime.{TemplateBuildStatus}
use kuuna_support_agents.Builds.{
  Env, Store, TemplateBuild, QueueTemplateBuildInput, has_id, find_template, find_version,
  queue_template_build,
}
use kuuna_support_agents.Builds.Queue.{queue_template_build_effect}
use kuuna_support_agents.Builds.Job.{
  accepts, put_row, commit, failed_row, mark_failed, succeeded_row, success_payload, after_inspect,
  after_build, image_ref_of, digests_of, texts_of, first_or, base_image_of, build_image_tag,
  build_cmd, inspect_cmd, logs, running_row, build_image, with_rows, with_uuid,
  process_template_build_job,
}

abbrev is_present : Option Text → Bool
is_present none = false
is_present (some t) = not (is_empty t)

abbrev is_missing : Option Text → Bool
is_missing none = true
is_missing (some t) = false

-- A build that has succeeded has an image, and one that is queued or has failed has none.
abbrev pub fits_status : TemplateBuildStatus → Option Text → Bool
fits_status TemplateBuildStatus.queued image = is_missing image
fits_status TemplateBuildStatus.failed image = is_missing image
fits_status TemplateBuildStatus.succeeded image = is_present image
fits_status TemplateBuildStatus.running image = true
fits_status TemplateBuildStatus.cancelled image = true

abbrev pub is_sound : TemplateBuild → Bool
is_sound b = accepts b && fits_status b.status b.image_ref

abbrev pub IsValid : Store → Type 0
IsValid db = (all is_sound db.builds ≡ true) × ((i : ℕ) → count (has_id i) db.builds ≤ 1)

put_row-IsValid :
    (b : TemplateBuild) (db : Store) → is_sound b ≡ true → IsValid db → IsValid (put_row b db)
put_row-IsValid b db s (sound, once) = (
  all-update_where is_sound (has_id b.id) (λ x. b) (λ x q p. s) db.builds sound,
  λ i.
      let kept =
        count-update_where_mono (has_id b.id) (has_id i) (has_id i) (λ x. b) (λ x h. ground arith)
          db.builds in
      let before = once i in omega arith,
)

commit-IsValid :
    (e : Env) (b : TemplateBuild) (event_type : Text) (payload : Fields) (db : Store)
    → fits_status b.status b.image_ref ≡ true
    → IsValid db
    → IsValid (commit e b event_type payload db).1
unfolding commit
commit-IsValid e b event_type payload db s h = elim (Bool-cases (accepts b)) [
  | inl a ↦ rw a (let sound : is_sound b ≡ true = rw (a, s) refl in put_row-IsValid b db sound h)
  | inr a ↦ rw a h
]

mark_failed-IsValid :
    (e : Env) (b : TemplateBuild) (error : Text) (db : Store)
    → IsValid db
    → IsValid (mark_failed e b error db).1
unfolding mark_failed
mark_failed-IsValid e b error db h =
    commit-IsValid e (failed_row b) (codes "template_build.failed")
      (field "error" (Json.str error) end) db refl h

-- A digest that is used is not empty.
first_digest :
    (tag : Text) (js : Items) → is_empty tag ≡ false → is_empty (first_or tag (texts_of js)) ≡ false
first_digest tag nil h = h
first_digest tag (cons (Json.str []) js) h = first_digest tag js h
first_digest tag (cons (Json.str (c ∷ t)) js) h = refl
first_digest tag (cons _ js) h = first_digest tag js h

first_decoded :
    (tag : Text) (j : Option Json)
    → is_empty tag ≡ false
    → is_empty (first_or tag (digests_of j)) ≡ false
first_decoded tag (some (arr js)) h = first_digest tag js h
first_decoded tag _ h = h

image_ref-is_empty :
    (e : Env) (tag : Text) (inspect : ℕ × Text × Text)
    → is_empty tag ≡ false
    → is_empty (image_ref_of e tag inspect) ≡ false
unfolding image_ref_of
image_ref-is_empty e tag (suc n, stdout, stderr) h = h
image_ref-is_empty e tag (zero, stdout, stderr) h =
    ground (arith, first_decoded tag (e.json_loads (strip stdout)))

take-is_empty : (t : Text) → is_empty t ≡ false → not (is_empty (take 512 t)) ≡ true
take-is_empty [] h = absurd (ground arith)
take-is_empty (c ∷ t) h = refl

tag-is_empty :
    (e : Env) (key : Text) (build_id : ℕ) → is_empty (build_image_tag e key build_id) ≡ false
unfolding build_image_tag
tag-is_empty e key build_id = refl

after_inspect-IsValid :
    (e : Env) (b : TemplateBuild) (tag : Text) (o : Option (ℕ × Text × Text)) (db : Store)
    → is_empty tag ≡ false
    → IsValid db
    → IsValid (after_inspect e b tag o db).1
unfolding after_inspect
after_inspect-IsValid e b tag none db n h = h
after_inspect-IsValid e b tag (some inspect) db n h =
    let ref = image_ref_of e tag inspect in
    commit-IsValid e (succeeded_row b ref tag) (codes "template_build.succeeded")
      (success_payload e b ref) db (take-is_empty ref (image_ref-is_empty e tag inspect n)) h

after_build-IsValid :
    (e : Env) (b : TemplateBuild) (command : List Text) (tag : Text) (o : Option (ℕ × Text × Text))
    (db : Store)
    → is_empty tag ≡ false
    → IsValid db
    → IsValid (after_build e b command tag o db).1
unfolding after_build
after_build-IsValid e b command tag none db n h = h
after_build-IsValid e b command tag (some (suc k, stdout, stderr)) db n h =
    mark_failed-IsValid e (record b { logs_ref = some (logs e command (suc k) stdout stderr) })
      (codes "docker build failed (exit " ++ e.show (suc k) ++ codes ")") db h
after_build-IsValid e b command tag (some (zero, stdout, stderr)) db n h =
    after_inspect-IsValid e (record b { logs_ref = some (logs e command 0 stdout stderr) }) tag
      (e.run (inspect_cmd e tag)) db n h

build_image-IsValid :
    (e : Env) (b : TemplateBuild) (template : GroupTemplate) (version : TemplateVersion)
    (db : Store)
    → IsValid db
    → IsValid (build_image e b template version db).1
unfolding build_image
build_image-IsValid e b template version db h =
    let tag = build_image_tag e template.key b.id in
    let command = build_cmd e (base_image_of e b) template.key tag version.id in
    elim (Bool-cases (is_empty (base_image_of e b))) [
      | inl n ↦ rw n (mark_failed-IsValid e b (codes "missing base_image in build_inputs") db h)
      | inr n ↦ rw n (
          after_build-IsValid e b command tag (e.run command) db (tag-is_empty e template.key b.id)
            h)
    ]

running_row-is_sound : (b : TemplateBuild) → is_sound b ≡ true → is_sound (running_row b) ≡ true
running_row-is_sound b h = ground arith

with_rows-IsValid :
    (e : Env) (b : TemplateBuild) (t : Option GroupTemplate) (v : Option TemplateVersion)
    (db : Store)
    → is_sound b ≡ true
    → IsValid db
    → IsValid (with_rows e b t v db).1
with_rows-IsValid e b (some template) (some version) db s h =
    build_image-IsValid e (running_row b) template version (put_row (running_row b) db)
      (put_row-IsValid (running_row b) db (running_row-is_sound b s) h)
with_rows-IsValid e b (some template) none db s h =
    mark_failed-IsValid e b (codes "missing template/version rows") db h
with_rows-IsValid e b none v db s h =
    mark_failed-IsValid e b (codes "missing template/version rows") db h

with_uuid-IsValid :
    (e : Env) (o : Option ℕ) (db : Store) → IsValid db → IsValid (with_uuid e o db).1
with_uuid-IsValid e none db h = h
with_uuid-IsValid e (some i) db h = elim (Option-cases (find? (has_id i) db.builds)) [
  | inl f ↦ rw f h
  | inr (b, f) ↦ rw f (
      with_rows-IsValid e b (find_template b.template_id db) (find_version b.template_version_id db)
        db (all-find? is_sound (has_id i) db.builds b h.0 f) h)
]

job-IsValid :
    (e : Env) (build_id : Text) (db : Store)
    → IsValid db
    → IsValid (process_template_build_job e build_id db).1
unfolding process_template_build_job
job-IsValid e build_id db h = with_uuid-IsValid e (e.parse_uuid build_id) db h

-- The calls of the service and of the queue's worker, each in its own environment.
pub data Call : Type 0 where
  queue :
      (e : Env) (queue_is_up : Bool) (actor new_id created_at template_id version_id : ℕ)
      → QueueTemplateBuildInput
      → Call
  job : (e : Env) (build_id : Text) → Call

abbrev pub apply : Call → Store → Store
apply (queue e up actor new_id created_at template_id version_id payload) db =
    (queue_template_build e up actor new_id created_at template_id version_id payload db).1
apply (job e build_id) db = (process_template_build_job e build_id db).1

abbrev pub history : List Call → Store → Store
history [] db = db
history (c ∷ cs) db = history cs (apply c db)

append-IsValid :
    (b : TemplateBuild) (builds : List TemplateBuild)
    → is_sound b ≡ true
    → any (has_id b.id) builds ≡ false
    → all is_sound builds ≡ true
    → ((i : ℕ) → count (has_id i) builds ≤ 1)
    → (all is_sound (builds ++ b ∷ []) ≡ true) × ((i : ℕ) → count (has_id i) (builds ++ b ∷ []) ≤ 1)
append-IsValid b builds s new sound once = (
  all-append is_sound builds (b ∷ []) ∙ rw (sound, s) refl,
  λ i.
      count-snoc_le_one (has_id i) builds b (once i)
        (λ same. count-eq_zero_of_any (has_id i) (has_id b.id) (λ x h. ground arith) builds new),
)

queued-is_sound :
    (b : TemplateBuild)
    → b.status ≡ TemplateBuildStatus.queued
    → b.image_ref ≡ none
    → b.image_tag ≡ none
    → b.logs_ref ≡ none
    → is_sound b ≡ true
queued-is_sound b status image tag logs = rw (status, image, tag, logs) refl

apply-IsValid : (c : Call) (db : Store) → IsValid db → IsValid (apply c db)
apply-IsValid (job e build_id) db h = job-IsValid e build_id db h
apply-IsValid (queue e up actor new_id created_at template_id version_id payload) db h =
    elim (queue_template_build_effect e up actor new_id created_at template_id version_id payload
      db) [
        | inl (x, q) ↦ subst (λ r. IsValid r.1) (sym q) h
        | inr
              (
                version,
                image,
                b,
                (t, v, m, p, i, new),
                (id, _, _, status, ref, tag, logs, _, _),
                (_, _, builds, _, _),
              ) ↦
            let fresh : any (has_id b.id) db.builds ≡ false = rw id new in
            rw builds
              (append-IsValid b db.builds (queued-is_sound b status ref tag logs) fresh h.0 h.1)
      ]

-- A history of calls and jobs, whatever their commands, keeps this: the keys of the builds are different,
-- the columns of each are in their bounds, a build that has succeeded has an image reference that is not
-- empty, and one that is queued or has failed has none.
pub builds_history-IsValid :
    (calls : List Call) (db : Store) → IsValid db → IsValid (history calls db)
builds_history-IsValid [] db h = h
builds_history-IsValid (c ∷ cs) db h = builds_history-IsValid cs (apply c db) (apply-IsValid c db h)
