-- ===== src/Runtime/Target.antt =====
-- The resolved target: backend/src/kuuna_backend/domain/runtime/resolve.py.
use kuuna_support_agents.Common.{
  ℕ, ◌≡◌, refl, sym, ap, ◌∙◌, ◌⊎◌, Bool, true, false, ◌&&◌, ◌||◌, not, Option, none, some, List, [],
  ◌∷◌, ◌++◌, Text, text_eq_iff, strip, is_empty, find?, any, all, all_mono, find?_holds, ok, err,
  subst, arith, Bool-cases, Option-cases, inl, inr, ltb, leb, ◌==◌,
}
use kuuna_support_agents.Bindings.{
  GroupBinding, BindingStatus, is_active, AgentInstance, Store, of_binding,
}
use kuuna_support_agents.Runtime.{
  TemplateBuild, TemplateBuildStatus, ResolvedRuntimeTarget, no_binding, latest, is_build_of,
  is_newer, has_image, is_bound, is_succeeded, target, with_build, resolve_runtime_target,
}
use kuuna_support_agents.Runtime.Latest.{IsLatest, latest-IsLatest, none-latest}

-- A row of a table.
abbrev pub IsIn {ℓ} : {A : Type ℓ} → A → List A → Type ℓ
IsIn {A = A} x xs = (before after : List A) × (xs ≡ before ++ x ∷ after)

find?-IsIn {ℓ} : {A : Type ℓ} (p : A → Bool) (xs : List A) (x : A) → find? p xs ≡ some x → IsIn x xs
find?-IsIn p [] x h = absurd (ground arith)
find?-IsIn p (y ∷ xs) x h = elim (Bool-cases (p y)) [
  | inl e ↦ let same : y ≡ x = ground arith in ([], xs, ap (λ z. z ∷ xs) same)
  | inr e ↦
      let (before, after, q) = find?-IsIn p xs x (ground arith) in
      (y ∷ before, after, ap (λ zs. y ∷ zs) q)
]

-- A build of the version with the status that a target wants.
abbrev pub is_usable : ℕ → ℕ → TemplateBuildStatus → Bool
is_usable v w TemplateBuildStatus.succeeded = w == v
is_usable v w TemplateBuildStatus.queued = false
is_usable v w TemplateBuildStatus.running = false
is_usable v w TemplateBuildStatus.failed = false
is_usable v w TemplateBuildStatus.cancelled = false

-- The first build is as old as the second, by the time and then the id.
abbrev pub is_older : TemplateBuild → TemplateBuild → Bool
is_older c b = ltb c.created_at b.created_at || c.created_at == b.created_at && leb c.id b.id

-- A succeeded build of the version, and every other one is older.
abbrev pub IsNewest : ℕ → List TemplateBuild → TemplateBuild → Type 0
IsNewest v builds b =
    IsIn b builds
    × (b.template_version_id ≡ v)
    × (b.status ≡ TemplateBuildStatus.succeeded)
    × (all (λ c. not (is_usable v c.template_version_id c.status) || is_older c b) builds ≡ true)

-- The build of a target: the newest one that succeeded, with an image that is not blank where a build
-- is required; or none, where none is required and none has succeeded.
abbrev pub HasBuild : Bool → ℕ → List TemplateBuild → ResolvedRuntimeTarget → Type 0
HasBuild required v builds t =
    ((t.template_build_id ≡ none)
      × (t.image_ref ≡ none)
      × (required ≡ false)
      × (any (λ c. is_usable v c.template_version_id c.status) builds ≡ false))
    ⊎ ((b : TemplateBuild) × IsNewest v builds b
        × (t.template_build_id ≡ some b.id)
        × (t.image_ref ≡ b.image_ref)
        × ((required ≡ false)
            ⊎ ((image : Text) × (t.image_ref ≡ some image) × (is_empty (strip image) ≡ false))))

-- What a target stands for: an active binding of the group, with its version and its build.
abbrev pub IsTarget :
    Text → (required : Bool) → List TemplateBuild → Store → ResolvedRuntimeTarget → Type 0
IsTarget g required builds db t =
    (b : GroupBinding) × IsIn b db.bindings
    × (b.provider_group_id ≡ g)
    × (b.status ≡ BindingStatus.active)
    × (any (λ v. v.id == b.template_version_id) db.template_versions ≡ true)
    × (t.provider_group_id ≡ g)
    × (t.binding_id ≡ b.id)
    × (t.template_version_id ≡ b.template_version_id)
    × HasBuild required b.template_version_id builds t

usable_lem : (v w : ℕ) (s : TemplateBuildStatus) → is_usable v w s ≡ (w == v && is_succeeded s)
usable_lem v w TemplateBuildStatus.queued = ground arith
usable_lem v w TemplateBuildStatus.running = ground arith
usable_lem v w TemplateBuildStatus.succeeded = ground arith
usable_lem v w TemplateBuildStatus.failed = ground arith
usable_lem v w TemplateBuildStatus.cancelled = ground arith

succeeded_lem :
    (s : TemplateBuildStatus) → is_succeeded s ≡ true → s ≡ TemplateBuildStatus.succeeded
succeeded_lem TemplateBuildStatus.queued h = absurd (ground arith)
succeeded_lem TemplateBuildStatus.running h = absurd (ground arith)
succeeded_lem TemplateBuildStatus.succeeded h = refl
succeeded_lem TemplateBuildStatus.failed h = absurd (ground arith)
succeeded_lem TemplateBuildStatus.cancelled h = absurd (ground arith)

active_lem : (s : BindingStatus) → is_active s ≡ true → s ≡ BindingStatus.active
active_lem BindingStatus.draft h = absurd (ground arith)
active_lem BindingStatus.provisioning h = absurd (ground arith)
active_lem BindingStatus.active h = refl
active_lem BindingStatus.inactive h = absurd (ground arith)
active_lem BindingStatus.failed h = absurd (ground arith)

no_usable :
    (v : ℕ) (builds : List TemplateBuild)
    → any (is_build_of v) builds ≡ false
    → any (λ c. is_usable v c.template_version_id c.status) builds ≡ false
no_usable v [] h = refl
no_usable v (c ∷ builds) h =
    rw (usable_lem v c.template_version_id c.status) (ground (arith, no_usable v builds))

older_lem :
    (v : ℕ) (b c : TemplateBuild)
    → not (is_build_of v c && is_newer c b) ≡ true
    → (not (is_usable v c.template_version_id c.status) || is_older c b) ≡ true
older_lem v b c h = rw (usable_lem v c.template_version_id c.status) (ground arith)

newest_lem :
    (v : ℕ) (builds : List TemplateBuild) (b : TemplateBuild)
    → IsLatest (is_build_of v) builds b
    → IsNewest v builds b
newest_lem v builds b (place, good, top) = (
  place,
  ground arith,
  succeeded_lem b.status (ground arith),
  all_mono (λ c. not (is_build_of v c && is_newer c b))
      (λ c. not (is_usable v c.template_version_id c.status) || is_older c b) (older_lem v b) builds
      top,
)

image_lem :
    (required : Bool) (image : Option Text)
    → (required && not (has_image image)) ≡ false
    → (required ≡ false) ⊎ ((i : Text) × (image ≡ some i) × (is_empty (strip i) ≡ false))
image_lem false image h = inl refl
image_lem true none h = absurd (ground arith)
image_lem true (some i) h = inr (i, refl, ground arith)

-- The part of a target that its binding and its build decide.
Fills : Text → Bool → GroupBinding → List TemplateBuild → ResolvedRuntimeTarget → Type 0
Fills g required b builds t =
    (t.provider_group_id ≡ g)
    × (t.binding_id ≡ b.id)
    × (t.template_version_id ≡ b.template_version_id)
    × HasBuild required b.template_version_id builds t

with_build-Fills :
    (g : Text) (required : Bool) (b : GroupBinding) (a : Option AgentInstance)
    (builds : List TemplateBuild) (o : Option TemplateBuild) (t : ResolvedRuntimeTarget)
    → latest (is_build_of b.template_version_id) builds ≡ o
    → with_build g required b a o ≡ ok t
    → Fills g required b builds t
unfolding with_build Fills
with_build-Fills g required b a builds none t l h = elim (Bool-cases required) [
  | inl e ↦ absurd (ground arith)
  | inr e ↦
      let same : target g b a none none ≡ t = ground arith in
      subst (Fills g required b builds) same (
        refl,
        refl,
        refl,
        inl (
          refl,
          refl,
          e,
          no_usable b.template_version_id builds
              (none-latest (is_build_of b.template_version_id) builds l),
        ),
      )
]
with_build-Fills g required b a builds (some c) t l h =
    elim (Bool-cases (required && not (has_image c.image_ref))) [
      | inl e ↦ absurd (ground arith)
      | inr e ↦
          let v = b.template_version_id in
          let same : target g b a (some c.id) c.image_ref ≡ t = ground arith in
          subst (Fills g required b builds) same (
            refl,
            refl,
            refl,
            inr (
              c,
              newest_lem v builds c (latest-IsLatest (is_build_of v) builds c l),
              refl,
              refl,
              image_lem required c.image_ref e,
            ),
          )
    ]

-- A resolution that succeeds answers with an active binding of the group, whose version is there, and
-- with the newest build of that version that succeeded, by the time and then the id. Where a successful
-- build is required there is one, and its image reference is not blank; where none is, the build is
-- absent only if none of the version has succeeded.
pub resolve_runtime_target_effect :
    (g : Text) (required : Bool) (builds : List TemplateBuild) (db : Store)
    (t : ResolvedRuntimeTarget)
    → resolve_runtime_target g required builds db ≡ ok t
    → IsTarget g required builds db t
unfolding resolve_runtime_target Fills
resolve_runtime_target_effect g required builds db t h =
    elim (Option-cases (find? (is_bound g db.template_versions) db.bindings)) [
      | inl unbound ↦
          let refused : resolve_runtime_target g required builds db ≡ err no_binding =
            rw (unbound, resolve_runtime_target) in
          absurd (ground (arith, sym refused ∙ h))
      | inr (b, found) ↦
          let a = find? (of_binding b.id) db.agents in
          let o = latest (is_build_of b.template_version_id) builds in
          let resolved : resolve_runtime_target g required builds db ≡ with_build g required b a o =
            rw (found, resolve_runtime_target) in
          let bound : is_bound g db.template_versions b ≡ true =
            find?_holds (is_bound g db.template_versions) db.bindings b found in
          let (group, binding, version, build) =
            with_build-Fills g required b a builds o t refl (sym resolved ∙ h) in
          (
            b,
            find?-IsIn (is_bound g db.template_versions) db.bindings b found,
            (text_eq_iff b.provider_group_id g).0 (ground arith),
            active_lem b.status (ground arith),
            ground arith,
            group,
            binding,
            version,
            build,
          )
    ]
