-- ===== src/Catalog/Tests.antt =====
-- Examples for the calls of backend/src/kuuna_backend/domain/tools/service.py.
use kuuna_support_agents.Common.{refl, arith, true, false, List, [], ◌∷◌, Text, codes}
use kuuna_support_agents.Catalog.{Catalog, Upsert, ToolRiskClass, ensure_default_catalog_entries}
use kuuna_support_agents.Catalog.Invariant.{
  IsValid, Call, list, upsert, history, catalog_history-IsValid,
}

abbrev same : Text → Text
same t = t

abbrev echo_off : Upsert
echo_off = record {
  tool_key = codes " echo ";
  display_name = codes "Echo";
  description = codes "Off";
  risk_class = ToolRiskClass.admin;
  category = [];
  is_enabled = false;
}

abbrev unnamed : Upsert
unnamed = record echo_off { display_name = codes " " }

abbrev calls : List Call
calls =
    upsert same echo_off ∷ list true ∷ upsert same unnamed ∷ upsert same echo_off ∷ list true ∷ []

empty-IsValid : IsValid []
empty-IsValid = record { keys = λ k. omega arith; filled = refl }

catalog_history-IsValid_example : IsValid (history calls [])
catalog_history-IsValid_example = catalog_history-IsValid calls [] empty-IsValid

abbrev defaults : Catalog
defaults = ensure_default_catalog_entries []
