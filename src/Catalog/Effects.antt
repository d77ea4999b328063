-- ===== src/Catalog/Effects.antt =====
-- What upsert_tool_catalog_entry of backend/src/kuuna_backend/domain/tools/service.py stores.
use kuuna_support_agents.Catalog.{Catalog}
