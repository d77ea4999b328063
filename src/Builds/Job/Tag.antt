-- ===== src/Builds/Job/Tag.antt =====
-- The tag of an image, `_build_image_tag` of backend/src/kuuna_backend/jobs/template_build.py, and the
-- test of services/runtime-agent/src/docker_runner.py that it meets when the image is run.
use kuuna_support_agents.Common.{
  ℕ, ◌≤◌, ◌≡◌, refl, ◌∙◌, Bool, true, false, [], ◌∷◌, ◌++◌, Text, codes, strip, lstrip, rstrip,
  is_space, is_empty, contains, text_eq, all, all-append, all_mono, all-take, all-filter, filter,
  take, length, length-take, Bool-cases, inl, inr, arith,
}
use kuuna_support_agents.Agent.Container.{is_safe_image_ref, is_image_code}
use kuuna_support_agents.Builds.{Env}
use kuuna_support_agents.Builds.Job.{
  is_tag_code, safe_characters, lstrip_dashes, rstrip_dashes, or_template, is_not_dash,
  build_image_tag,
}

is_image_code_range : (c : ℕ) → is_image_code c ≡ true → (33 ≤ c) × (c ≤ 122)
unfolding contains text_eq
is_image_code_range c h = ground arith

is_space_range : (c : ℕ) → 33 ≤ c → c ≤ 122 → is_space c ≡ false
unfolding is_space
is_space_range c low high = ground arith

is_tag_code-is_image_code : (c : ℕ) → is_tag_code c ≡ true → is_image_code c ≡ true
unfolding contains text_eq
is_tag_code-is_image_code c h = ground arith

is_image_code-is_space : (c : ℕ) → is_image_code c ≡ true → is_space c ≡ false
is_image_code-is_space c h = let r = is_image_code_range c h in is_space_range c r.0 r.1

lstrip_same : (s : Text) → all is_image_code s ≡ true → lstrip s ≡ s
unfolding lstrip
lstrip_same [] h = refl
lstrip_same (c ∷ s) h =
    let image : is_image_code c ≡ true = ground arith in rw (is_image_code-is_space c image) refl

rstrip_same : (s : Text) → all is_image_code s ≡ true → rstrip s ≡ s
unfolding rstrip
rstrip_same [] h = refl
rstrip_same (c ∷ s) h =
    let image : is_image_code c ≡ true = ground arith in
    let rest : all is_image_code s ≡ true = ground arith in
    rw (rstrip_same s rest, is_image_code-is_space c image) (ground arith)

strip_same : (s : Text) → all is_image_code s ≡ true → strip s ≡ s
unfolding strip
strip_same s h = rw (lstrip_same s h) (rstrip_same s h)

all-safe_characters : (in_run : Bool) (t : Text) → all is_tag_code (safe_characters in_run t) ≡ true
unfolding safe_characters
all-safe_characters true [] = refl
all-safe_characters false [] = refl
all-safe_characters true (c ∷ t) = elim (Bool-cases (is_tag_code c)) [
  | inl k ↦ rw (k, k) (all-safe_characters false t)
  | inr k ↦ rw k (all-safe_characters true t)
]
all-safe_characters false (c ∷ t) = elim (Bool-cases (is_tag_code c)) [
  | inl k ↦ rw (k, k) (all-safe_characters false t)
  | inr k ↦ rw k (all-safe_characters true t)
]

all-lstrip_dashes : (t : Text) → all is_tag_code t ≡ true → all is_tag_code (lstrip_dashes t) ≡ true
unfolding lstrip_dashes
all-lstrip_dashes [] h = refl
all-lstrip_dashes (c ∷ t) h = ground (arith, all-lstrip_dashes t)

all-rstrip_dashes : (t : Text) → all is_tag_code t ≡ true → all is_tag_code (rstrip_dashes t) ≡ true
unfolding rstrip_dashes
all-rstrip_dashes [] h = refl
all-rstrip_dashes (c ∷ t) h = ground (arith, all-rstrip_dashes t)

all-or_template : (t : Text) → all is_tag_code t ≡ true → all is_tag_code (or_template t) ≡ true
all-or_template [] h = refl
all-or_template (c ∷ t) h = h

as_image : (t : Text) → all is_tag_code t ≡ true → all is_image_code t ≡ true
as_image t h = all_mono is_tag_code is_image_code is_tag_code-is_image_code t h

all_append_true :
    (s t : Text)
    → all is_image_code s ≡ true
    → all is_image_code t ≡ true
    → all is_image_code (s ++ t) ≡ true
all_append_true s t h k = all-append is_image_code s t ∙ rw (h, k) refl

-- The parts of a tag that do not come from the template or the build.
abbrev prefix : Text
prefix = codes "kuuna/template-"

abbrev infix_ : Text
infix_ = codes ":build-"

prefix-all : all is_image_code prefix ≡ true
unfolding contains text_eq
prefix-all = refl

infix-all : all is_image_code infix_ ≡ true
unfolding contains text_eq
infix-all = refl

all-build_image_tag :
    (e : Env) (key : Text) (build_id : ℕ)
    → ((t : Text) → all is_tag_code t ≡ true → all is_tag_code (e.lower t) ≡ true)
    → all is_tag_code (e.show_uuid build_id) ≡ true
    → all is_image_code (build_image_tag e key build_id) ≡ true
unfolding build_image_tag
all-build_image_tag e key build_id lowered shown =
    let safe = safe_characters false key in
    let stripped = rstrip_dashes (lstrip_dashes safe) in
    let named = as_image (or_template (e.lower stripped)) (
      all-or_template (e.lower stripped) (
        lowered stripped (
          all-rstrip_dashes (lstrip_dashes safe)
            (all-lstrip_dashes safe (all-safe_characters false key))))) in
    let short = take 12 (filter is_not_dash (e.show_uuid build_id)) in
    let numbered = as_image short (
      all-take is_tag_code 12 (filter is_not_dash (e.show_uuid build_id))
        (all-filter is_tag_code is_not_dash (e.show_uuid build_id) shown)) in
    let key_part = or_template (e.lower stripped) in
    all_append_true (prefix ++ key_part ++ infix_) short
      (all_append_true (prefix ++ key_part) infix_
        (all_append_true prefix key_part prefix-all named) infix-all)
      numbered

is_safe_of_image_codes :
    (s : Text)
    → is_empty s ≡ false
    → length s ≤ 512
    → all is_image_code s ≡ true
    → is_safe_image_ref s ≡ true
unfolding is_safe_image_ref
is_safe_of_image_codes s e l h = rw (strip_same s h, e, h) (ground arith)

-- Where `lower` keeps the characters of a tag and a UUID is shown by them, the tag that the build job
-- stores as the reference of an image passes the test of the runtime agent, for every template key.
pub image_tag_is_safe :
    (e : Env) (key : Text) (build_id : ℕ)
    → ((t : Text) → all is_tag_code t ≡ true → all is_tag_code (e.lower t) ≡ true)
    → all is_tag_code (e.show_uuid build_id) ≡ true
    → is_safe_image_ref (take 512 (build_image_tag e key build_id)) ≡ true
image_tag_is_safe e key build_id lowered shown =
    let tag = build_image_tag e key build_id in
    let short : length (take 512 tag) ≤ 512 = omega (arith, length-take 512 tag) in
    is_safe_of_image_codes (take 512 tag) (unfold build_image_tag in refl) short
      (all-take is_image_code 512 tag (all-build_image_tag e key build_id lowered shown))
