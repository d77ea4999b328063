-- ===== src/Catalog.antt =====
-- The catalogue of tools: backend/src/kuuna_backend/domain/tools/service.py. The key of the database
-- and the times of a row are left out. A call runs in one session and no other session writes
-- meanwhile, so the unique constraint on `tool_key` is not tested; the texts fit their columns.
pub mod Invariant
pub mod Effects
mod Tests
use kuuna_support_agents.Common.{
  Bool, true, false, not, Option, none, some, List, [], ◌∷◌, ◌++◌, Text, codes, strip, is_empty,
  text_eq, map, filter, find?, any, update_where, Result, ok, err, if◌then◌else◌,
}

pub data ToolRiskClass : Type 0 where
  read write admin : ToolRiskClass

pub record ToolCatalogEntry : Type 0 where
  pub tool_key : Text
  pub display_name : Text
  pub description : Text
  pub risk_class : ToolRiskClass
  pub category : Text
  pub is_enabled : Bool

-- The cases of `ToolCatalogValidationError` that `upsert_tool_catalog_entry` tests.
pub data ToolCatalogValidationError : Type 0 where
  empty_tool_key empty_display_name empty_description : ToolCatalogValidationError

pub record DefaultToolDefinition : Type 0 where
  pub tool_key : Text
  pub display_name : Text
  pub description : Text
  pub risk_class : ToolRiskClass
  pub category : Text

abbrev pub Catalog : Type 0
Catalog = List ToolCatalogEntry

abbrev pub has_key : Text → ToolCatalogEntry → Bool
has_key key entry = text_eq key entry.tool_key

abbrev pub default_tool_catalog : List DefaultToolDefinition
default_tool_catalog =
    (record {
      tool_key = codes "echo";
      display_name = codes "Echo";
      description =
          codes "Returns the provided input text unchanged. Useful for connectivity checks.";
      risk_class = ToolRiskClass.read;
      category = codes "utility";
    })
    ∷ (record {
      tool_key = codes "uppercase";
      display_name = codes "Uppercase";
      description = codes "Transforms text to uppercase for deterministic formatting tests.";
      risk_class = ToolRiskClass.read;
      category = codes "utility";
    })
    ∷ (record {
      tool_key = codes "context_lookup";
      display_name = codes "Context Lookup";
      description =
          codes "Reads a specific key from runtime context assembled for the current message.";
      risk_class = ToolRiskClass.read;
      category = codes "context";
    })
    ∷ (record {
      tool_key = codes "knowledge_search";
      display_name = codes "Knowledge Search";
      description = codes "Searches published group/common knowledge and returns ranked passages.";
      risk_class = ToolRiskClass.read;
      category = codes "knowledge";
    })
    ∷ (record {
      tool_key = codes "message_history";
      display_name = codes "Message History";
      description =
          codes "Reads recent group conversation history for retrieval-augmented responses.";
      risk_class = ToolRiskClass.read;
      category = codes "context";
    })
    ∷ (record {
      tool_key = codes "send_whatsapp";
      display_name = codes "Send WhatsApp";
      description =
          codes
            "Sends outbound WhatsApp messages via the gateway (uses outbound_intent idempotency).";
      risk_class = ToolRiskClass.write;
      category = codes "communication";
    })
    ∷ []

abbrev pub entry_of : DefaultToolDefinition → ToolCatalogEntry
entry_of d = record {
  tool_key = d.tool_key;
  display_name = d.display_name;
  description = d.description;
  risk_class = d.risk_class;
  category = d.category;
  is_enabled = true;
}

abbrev pub is_missing : Catalog → DefaultToolDefinition → Bool
is_missing db d = not (any (has_key d.tool_key) db)

abbrev pub missing_entries : Catalog → List DefaultToolDefinition → Catalog
missing_entries db defaults = map entry_of (filter (is_missing db) defaults)

-- `_ensure_default_catalog_entries`
abbrev pub ensure_default_catalog_entries : Catalog → Catalog
ensure_default_catalog_entries db = db ++ missing_entries db default_tool_catalog

-- What `list_tool_catalog` stores: with `bootstrap_defaults` it first ensures the default entries.
abbrev pub list_tool_catalog_stores : (bootstrap_defaults : Bool) → Catalog → Catalog
list_tool_catalog_stores bootstrap db = if bootstrap then ensure_default_catalog_entries db else db

abbrev pub or_runtime : Text → Text
or_runtime [] = codes "runtime"
or_runtime (c ∷ t) = c ∷ t

pub record Upsert : Type 0 where
  pub tool_key : Text
  pub display_name : Text
  pub description : Text
  pub risk_class : ToolRiskClass
  pub category : Text
  pub is_enabled : Bool

abbrev pub normalized : (lower : Text → Text) → Upsert → ToolCatalogEntry
normalized lower u = record {
  tool_key = lower (strip u.tool_key);
  display_name = strip u.display_name;
  description = strip u.description;
  risk_class = u.risk_class;
  category = or_runtime (lower (strip u.category));
  is_enabled = u.is_enabled;
}

abbrev pub overwrite : (entry existing : ToolCatalogEntry) → ToolCatalogEntry
overwrite entry existing = record existing {
  display_name = entry.display_name;
  description = entry.description;
  risk_class = entry.risk_class;
  category = entry.category;
  is_enabled = entry.is_enabled;
}

abbrev pub store_entry : ToolCatalogEntry → Catalog → Catalog
store_entry entry db =
    if any (has_key entry.tool_key) db
    then update_where (has_key entry.tool_key) (overwrite entry) db
    else db ++ entry ∷ []

abbrev pub validated :
    ToolCatalogEntry → Catalog → Result ToolCatalogValidationError ToolCatalogEntry × Catalog
validated entry db =
    if is_empty entry.tool_key
    then (err empty_tool_key, db)
    else (if is_empty entry.display_name
        then (err empty_display_name, db)
        else if is_empty entry.description
        then (err empty_description, db)
        else (ok entry, store_entry entry db))

-- `upsert_tool_catalog_entry`, with `str.lower` as a parameter.
pub upsert_tool_catalog_entry :
    (lower : Text → Text)
    → Upsert
    → Catalog
    → Result ToolCatalogValidationError ToolCatalogEntry × Catalog
upsert_tool_catalog_entry lower u db = validated (normalized lower u) db
