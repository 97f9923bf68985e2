-- ===== src/Registry/Seed.antt =====
-- The definitions of modules that the application starts with: backend/app/modules/module_registry/seed.py
-- and `seed_definitions` of service.py. Names and descriptions are left out.
use coreops_platform.Base.{String, true, none, some, List, [], ◌∷◌, update_where, str_eq}
use coreops_platform.Platform.{ModuleMode, ModuleDefinition, Platform}
use coreops_platform.Platform.Guard.{get_definition}

-- An entry of `MODULE_DEFINITIONS`.
pub record SeedItem : Type 0 where
  pub code : String
  pub default_mode : ModuleMode
  pub required : List String

abbrev internal_item : String → List String → SeedItem
internal_item code required = record {
  code = code;
  default_mode = ModuleMode.internal;
  required = required;
}

abbrev pub module_definitions : List SeedItem
module_definitions =
    internal_item "parties" []
    ∷ internal_item "crm" ("parties" ∷ [])
    ∷ internal_item "catalog" []
    ∷ internal_item "documents" []
    ∷ internal_item "finance" []
    ∷ internal_item "accounting" []
    ∷ internal_item "integrations" []
    ∷ internal_item "ai" []
    ∷ internal_item "booking" ("parties" ∷ [])
    ∷ internal_item "marketing" ("parties" ∷ [])
    ∷ []

-- `setattr` for each key of the item; whether the module is offered stays.
abbrev pub overwrite : SeedItem → ModuleDefinition → ModuleDefinition
overwrite item d = record d { default_mode = item.default_mode; required = item.required }

abbrev pub definition_of : SeedItem → ModuleDefinition
definition_of item = record {
  code = item.code;
  is_active = true;
  default_mode = item.default_mode;
  required = item.required;
}

unfoldable pub upsert_definition : SeedItem → Platform → Platform
unfolding get_definition
upsert_definition item p = elim (get_definition p item.code) [
  | none ↦ record p { definitions = definition_of item ∷ p.definitions }
  | some d ↦ record p {
    definitions = update_where (λ d. str_eq d.code item.code) (overwrite item) p.definitions;
  }
]

unfoldable pub upsert_each : List SeedItem → Platform → Platform
upsert_each [] p = p
upsert_each (item ∷ items) p = upsert_each items (upsert_definition item p)

unfoldable pub seed_definitions : Platform → Platform
unfolding upsert_each
seed_definitions p = upsert_each module_definitions p
