-- ===== src/Models.antt =====
-- The enumerations and rows of backend/src/kuuna_backend/db/models.py that several services share.
-- A UUID is a number that is only compared; a time is a number of clock ticks.
use kuuna_support_agents.Common.{Bool, true, false}

-- `TemplateVersionStatus`; knowledge versions use it too.
pub data TemplateVersionStatus : Type 0 where
  draft ready published archived : TemplateVersionStatus

abbrev pub is_ready : TemplateVersionStatus → Bool
is_ready TemplateVersionStatus.ready = true
is_ready _ = false

abbrev pub is_published : TemplateVersionStatus → Bool
is_published TemplateVersionStatus.published = true
is_published _ = false

abbrev pub is_archived : TemplateVersionStatus → Bool
is_archived TemplateVersionStatus.archived = true
is_archived _ = false

pub data KnowledgeScope : Type 0 where
  common group : KnowledgeScope

abbrev pub scope_eq : KnowledgeScope → KnowledgeScope → Bool
scope_eq KnowledgeScope.common KnowledgeScope.common = true
scope_eq KnowledgeScope.group KnowledgeScope.group = true
scope_eq _ _ = false
