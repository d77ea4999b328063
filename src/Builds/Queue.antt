-- ===== src/Builds/Queue.antt =====
-- What `queue_template_build` of backend/src/kuuna_backend/domain/template_builds/service.py stores.
use kuuna_support_agents.Common.{
  ℕ, ◌≤◌, ◌≡◌, refl, sym, subst, ◌⊎◌, inl, inr, Bool, true, false, some, Text, codes, strip,
  is_empty, is_some, any, all, map, length, Option, none, List, [], ◌∷◌, ◌++◌, ok, err,
  if◌then◌else◌, arith, Bool-cases, Option-cases, ltb, ◌==◌,
}
use kuuna_support_agents.Models.{is_published}
use kuuna_support_agents.Common.Json.{Fields, str, arr, obj, items, get}
use kuuna_support_agents.Audit.{AuditEvent}
use kuuna_support_agents.Runtime.{TemplateBuildStatus}
use kuuna_support_agents.Templates.{TemplateVersion}
use kuuna_support_agents.Builds.{
  Env, Store, Outcome, TemplateBuild, TemplateBuildServiceError, validation, raised,
  QueueTemplateBuildInput, is_base_image_code, validate_base_image, queued_row, has_id,
  find_template, find_version, version_of, commit_queued, enqueue, with_version, allowed_tools,
  queue_template_build,
}

-- A base image: the text that was given without its blanks, of 1 to 255 of the characters allowed.
abbrev pub IsBaseImage : (given image : Text) → Type 0
IsBaseImage given image =
    (image ≡ strip given)
    × (is_empty image ≡ false)
    × (length image ≤ 255)
    × (all is_base_image_code image ≡ true)

validate_base_image-cases :
    (given : Text)
    → ((x : TemplateBuildServiceError) × (validate_base_image given ≡ err x))
      ⊎ ((validate_base_image given ≡ ok (strip given)) × IsBaseImage given (strip given))
unfolding validate_base_image
validate_base_image-cases given = elim (Bool-cases (is_empty (strip given))) [
  | inl n ↦ inl (validation (codes "base_image is required"), rw n refl)
  | inr n ↦ elim (Bool-cases (ltb 255 (length (strip given)))) [
    | inl l ↦ inl (validation (codes "base_image is too long"), rw (n, l) refl)
    | inr l ↦ elim (Bool-cases (all is_base_image_code (strip given))) [
      | inl a ↦ inr (rw (n, l, a) refl, (refl, n, ground arith, a))
      | inr a ↦ inl (validation (codes "base_image contains invalid characters"), rw (n, l, a) refl)
    ]
  ]
]

-- What a call needs to store a build: the template, a published version of it, a base image and a key
-- that no build has.
abbrev pub IsQueueable :
    (new_id template_id version_id : ℕ)
    → QueueTemplateBuildInput
    → Store
    → TemplateVersion
    → (image : Text) → Type 0
IsQueueable new_id template_id version_id payload db version image =
    (is_some (find_template template_id db) ≡ true)
    × (find_version version_id db ≡ some version)
    × ((version.template_id == template_id) ≡ true)
    × (is_published version.status ≡ true)
    × IsBaseImage payload.base_image image
    × (any (has_id new_id) db.builds ≡ false)

-- A build of the version that waits in the queue, with the image and the tools it is to be made from.
abbrev pub IsQueued :
    Env
    → (new_id created_at : ℕ) → TemplateVersion
    → (image : Text) → Option (List Text)
    → TemplateBuild
    → Type 0
IsQueued e new_id created_at version image tools b =
    (b.id ≡ new_id)
    × (b.template_id ≡ version.template_id)
    × (b.template_version_id ≡ version.id)
    × (b.status ≡ TemplateBuildStatus.queued)
    × (b.image_ref ≡ none)
    × (b.image_tag ≡ none)
    × (b.logs_ref ≡ none)
    × (b.created_at ≡ created_at)
    × ((inputs : Fields) × (b.build_inputs ≡ obj inputs)
        × (get "base_image" inputs ≡ some (str image))
        × (get "allowed_tools" inputs
            ≡ some (arr (items (map (λ t. str t) (allowed_tools e tools version)))))
        × (get "egress_policy" inputs ≡ some (obj version.egress_policy)))

-- The event of the build, by the user who asked for it.
abbrev pub IsQueuedEvent : Env → (actor : ℕ) → TemplateBuild → AuditEvent → Type 0
IsQueuedEvent e actor b a =
    (a.actor_user_id ≡ some actor)
    × (a.event_type ≡ codes "template_build.queued")
    × (a.entity_type ≡ codes "template_build")
    × (a.entity_id ≡ e.show_uuid b.id)

-- The build and its event are added; the queue gets the key of the build, if it answers, and the
-- caller an exception if it does not.
abbrev pub Stores :
    Env
    → (queue_is_up : Bool) → (actor : ℕ) → Store
    → TemplateBuild
    → Outcome TemplateBuild
    → Type 0
Stores e queue_is_up actor db b r =
    (r.1.templates ≡ db.templates)
    × (r.1.versions ≡ db.versions)
    × (r.1.builds ≡ db.builds ++ b ∷ [])
    × ((a : AuditEvent) × IsQueuedEvent e actor b a × (r.1.audit ≡ db.audit ++ a ∷ []))
    × (((queue_is_up ≡ true) × (r.0 ≡ ok b) × (r.1.enqueued ≡ db.enqueued ++ e.show_uuid b.id ∷ []))
        ⊎ ((queue_is_up ≡ false) × (r.0 ≡ err raised) × (r.1.enqueued ≡ db.enqueued)))

-- The outcome of a call that stores a build.
abbrev pub stored :
    Env → (queue_is_up : Bool) → (actor : ℕ) → TemplateBuild → Store → Outcome TemplateBuild
stored e queue_is_up actor b db =
    if queue_is_up
    then (ok b, enqueue e b.id (commit_queued e actor b db))
    else (err raised, commit_queued e actor b db)

stored-Stores :
    (e : Env) (queue_is_up : Bool) (actor : ℕ) (b : TemplateBuild) (db : Store)
    → Stores e queue_is_up actor db b (stored e queue_is_up actor b db)
stored-Stores e true actor b db =
    (refl, refl, refl, (_, (refl, refl, refl, refl), refl), inl (refl, refl, refl))
stored-Stores e false actor b db =
    (refl, refl, refl, (_, (refl, refl, refl, refl), refl), inr (refl, refl, refl))

queued_row-IsQueued :
    (e : Env) (new_id created_at : ℕ) (version : TemplateVersion) (image : Text)
    (tools : Option (List Text))
    → IsQueued e new_id created_at version image tools
        (queued_row e new_id created_at version image tools)
unfolding get
queued_row-IsQueued e new_id created_at version image tools =
    (refl, refl, refl, refl, refl, refl, refl, refl, (_, refl, refl, refl, refl))

module _ (e : Env) (queue_is_up : Bool) (actor new_id created_at template_id version_id : ℕ)
    (payload : QueueTemplateBuildInput) (db : Store) where
  abbrev pub Queues : Outcome TemplateBuild → Type 0
  Queues r =
      ((x : TemplateBuildServiceError) × (r ≡ (err x, db)))
      ⊎ ((version : TemplateVersion) × (image : Text) × (b : TemplateBuild) × IsQueueable new_id
            template_id version_id payload db version image
          × IsQueued e new_id created_at version image payload.allowed_tools_override b
          × Stores e queue_is_up actor db b r)

  with_version-Queues :
      (t : is_some (find_template template_id db) ≡ true) (version : TemplateVersion)
      → find_version version_id db ≡ some version
      → (version.template_id == template_id) ≡ true
      → Queues (with_version e queue_is_up actor new_id created_at payload (ok version) db)
  with_version-Queues t version v m = elim (Bool-cases (is_published version.status)) [
    | inr p ↦ rw p (inl (validation (codes "only published template versions can be built"), refl))
    | inl p ↦ rw p (elim (validate_base_image-cases payload.base_image) [
      | inl (x, q) ↦ rw q (inl (x, refl))
      | inr (q, image) ↦ rw q (elim (Bool-cases (any (has_id new_id) db.builds)) [
        | inl a ↦ rw a (inl (raised, refl))
        | inr a ↦
            let b =
              queued_row e new_id created_at version (strip payload.base_image)
                payload.allowed_tools_override in
            rw a (
              inr (
                version,
                strip payload.base_image,
                b,
                (t, v, m, p, image, refl),
                queued_row-IsQueued e new_id created_at version (strip payload.base_image)
                    payload.allowed_tools_override,
                stored-Stores e queue_is_up actor b db,
              ))
      ])
    ])
  ]

  pub queue_template_build_effect :
      Queues (
        queue_template_build e queue_is_up actor new_id created_at template_id version_id payload
          db)
  unfolding queue_template_build version_of
  queue_template_build_effect =
      let call =
        queue_template_build e queue_is_up actor new_id created_at template_id version_id payload
          db in
      elim (Option-cases (find_template template_id db)) [
        | inl t ↦ inl (validation (codes "template not found"), rw (queue_template_build, t) refl)
        | inr (template, t) ↦ elim (Option-cases (find_version version_id db)) [
          | inl v ↦ inl (
            validation (codes "template version not found"),
            rw (queue_template_build, t, version_of, v) refl,
          )
          | inr (version, v) ↦ elim (Bool-cases (version.template_id == template_id)) [
            | inr m ↦ inl (
              validation (codes "template version not found"),
              rw (queue_template_build, t, version_of, v, m) refl,
            )
            | inl m ↦
                let next =
                  with_version e queue_is_up actor new_id created_at payload (ok version) db in
                let same : call ≡ next = rw (queue_template_build, t, version_of, v, m) refl in
                subst Queues (sym same) (with_version-Queues (rw t refl) version v m)
          ]
        ]
      ]
