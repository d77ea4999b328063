-- ===== src/Templates/Tests.antt =====
-- The template lifecycle at concrete stores.
use kuuna_support_agents.Common.{Text, contains, is_empty, text_eq, count, ◌&&◌, not, ◌≤◌}
use kuuna_support_agents.Common.Json.{Json, bool, str, arr, obj, field, nil, cons, end}
use kuuna_support_agents.Templates.Tools.{is_allowed, extract_allowed_tools, allowed_tools_iff}
use kuuna_support_agents.Common.{
  ℕ, text_eq, ◌≡◌, refl, Bool, true, false, none, some, [], ◌∷◌, codes, ok, err, find?, not, ◌==◌,
  arith, all, ltb, inl, ◌↔◌, ◌||◌, ◌++◌,
}
use kuuna_support_agents.Common.Json.{end}
use kuuna_support_agents.Models.{TemplateVersionStatus}
use kuuna_support_agents.Templates
use kuuna_support_agents.Templates.{
  TemplateVersion, Store, DraftInput, create_template, create_template_version_draft,
  template_conflict, publish_template_version, rollback_template_version, template_lifecycle,
  draft_row,
}
use kuuna_support_agents.Templates.Invariant.{
  IsValid, here, next, Step, templates_history-IsValid, is_live,
}
use kuuna_support_agents.Templates.Effects.{
  TakesOver, publish-TakesOver, refusals, rollback_restores, draft_succeeds, draft_race,
  error_keeps_store,
}

abbrev input : DraftInput
input = record {
  system_prompt = none;
  model_config = none;
  tools_config = none;
  egress_policy = none;
}

abbrev version : ℕ → ℕ → ℕ → TemplateVersionStatus → TemplateVersion
version i t n s = record {
  id = i;
  template_id = t;
  version_no = n;
  status = s;
  system_prompt = none;
  model_config = end;
  tools_config = end;
  egress_policy = end;
}

abbrev shop : Store
shop = record {
  templates = record { id = 1; key = codes "shop"; display_name = codes "Shop" } ∷ [];
  versions =
      version 10 1 1 TemplateVersionStatus.published
      ∷ version 11 1 2 TemplateVersionStatus.draft
      ∷ [];
}

abbrev empty : Store
empty = record { templates = []; versions = [] }

empty-IsValid : IsValid empty
empty-IsValid = record {
  keys = λ k. omega arith;
  ids = λ i. omega arith;
  numbers = λ t n. omega arith;
  live = λ t. omega arith;
}

abbrev created : Store
created = (create_template 1 (codes "shop") (codes "Shop") empty empty).1

abbrev drafted : Store
drafted = (create_template_version_draft 10 1 input created created).1

templates_history-IsValid_example : IsValid (publish_template_version 1 10 drafted).1
templates_history-IsValid_example = templates_history-IsValid empty-IsValid (
    next
      (next (next here (Step.create 1 (codes "shop") (codes "Shop") empty empty))
        (Step.draft 10 1 input created created))
      (Step.publish 1 10 drafted))

publish_eleven :
    (publish_template_version 1 11 shop).0 ≡ ok (version 11 1 2 TemplateVersionStatus.published)
unfolding publish_template_version
publish_eleven = refl

publish-TakesOver_example :
    TakesOver 1 11 shop
      (version 11 1 2 TemplateVersionStatus.published)
      (publish_template_version 1 11 shop).1
unfolding publish_template_version
publish-TakesOver_example =
    publish-TakesOver 1 11 shop (publish_template_version 1 11 shop).1
      (version 11 1 2 TemplateVersionStatus.published) (inl refl)

rollback_restores_example :
    let after = (publish_template_version 1 11 shop).1 in
    ((publish_template_version 1 10 after).0 ≡ err template_lifecycle)
    × ((rollback_template_version 1 10 after).0
        ≡ ok (version 10 1 1 TemplateVersionStatus.published))
    × (find? (is_live 1) (rollback_template_version 1 10 after).1.versions
        ≡ some (version 10 1 1 TemplateVersionStatus.published))
rollback_restores_example =
    rollback_restores 1 10 11 shop (version 10 1 1 TemplateVersionStatus.published)
      (version 11 1 2 TemplateVersionStatus.published) (omega arith) refl refl publish_eleven

abbrev twelve : TemplateVersion
twelve = draft_row 12 1 3 input

draft_succeeds_example :
    (create_template_version_draft 12 1 input shop shop
      ≡ (ok twelve, record shop { versions = shop.versions ++ twelve ∷ [] }))
    × (all (λ w. not (w.template_id == 1) || ltb w.version_no 3) shop.versions ≡ true)
unfolding Templates.latest_version_no
draft_succeeds_example = draft_succeeds 12 1 input shop refl refl

draft_twelve : (create_template_version_draft 12 1 input shop shop).0 ≡ ok twelve
unfolding create_template_version_draft Templates.commit_version Templates.latest_version_no
draft_twelve = refl

draft_race_example :
    let after = (create_template_version_draft 12 1 input shop shop).1 in
    create_template_version_draft 13 1 input shop after ≡ (err template_conflict, after)
draft_race_example = draft_race 12 13 1 input input shop twelve draft_twelve

refusals_example :
    (((publish_template_version 1 11 shop).0 ≡ err template_lifecycle) ↔ ◌≡◌ {A = Bool} false true)
    × (((rollback_template_version 1 11 shop).0 ≡ err template_lifecycle)
        ↔ ◌≡◌ {A = Bool} false false)
refusals_example = refusals 1 11 shop (version 11 1 2 TemplateVersionStatus.draft) refl

error_keeps_store_example : (create_template 2 (codes "shop") (codes "S") empty shop).1 ≡ shop
unfolding create_template Templates.commit_template text_eq
error_keeps_store_example =
    error_keeps_store 2 1 1 (codes "shop") (codes "S") input empty shop
      (create_template 2 (codes "shop") (codes "S") empty shop).1 template_conflict (inl refl)

-- Two tools, of which the second is disabled.
abbrev tools_config : Json
tools_config = obj (
    field "allowed_tools" (arr (cons (str (codes " mail ")) nil)) (
      field "tools"
        (arr (cons (obj (field "name" (str (codes "web")) (field "enabled" (bool false) end))) nil))
        end))

-- `str.lower` on texts that are in lower case.
abbrev lower : Text → Text
lower t = t

allowed_tools_iff_example :
    (contains (codes "mail") (extract_allowed_tools lower tools_config)
      ≡ (not (is_empty (codes "mail")) && is_allowed lower (codes "mail") tools_config))
    × (count (text_eq (codes "mail")) (extract_allowed_tools lower tools_config) ≤ 1)
allowed_tools_iff_example = allowed_tools_iff lower tools_config (codes "mail")
