-- ===== src/Registry/SeedTests.antt =====
-- Runs of `seed_definitions` of backend/app/modules/module_registry/service.py.
use coreops_platform.Base.{◌≡◌, refl, false, some, List, [], ◌∷◌, All}
use coreops_platform.Platform.{ModuleMode, ModuleDefinition, Platform}
use coreops_platform.Platform.Guard.{get_definition}
use coreops_platform.Registry.Seed.{
  upsert_definition, upsert_each, module_definitions, seed_definitions,
}
use coreops_platform.Registry.Seeded.{IsSeeded, seed_definitions-IsSeeded}

abbrev with_definitions : List ModuleDefinition → Platform
with_definitions definitions = record {
  definitions = definitions;
  modules = [];
  subscriptions = [];
  features = [];
  plan_features = [];
  usage_limits = [];
  usage_events = [];
}

abbrev withdrawn_booking : ModuleDefinition
withdrawn_booking = record {
  code = "booking";
  is_active = false;
  default_mode = ModuleMode.off;
  required = [];
}

-- A definition that was withdrawn stays withdrawn, and gets the requirements of the seed.
withdrawn_lem :
    get_definition (seed_definitions (with_definitions (withdrawn_booking ∷ []))) "booking"
    ≡ some
        (record withdrawn_booking { default_mode = ModuleMode.internal; required = "parties" ∷ [] })
unfolding get_definition upsert_definition upsert_each seed_definitions
withdrawn_lem = refl

-- Seeding again changes nothing.
again_lem :
    seed_definitions (seed_definitions (with_definitions []))
    ≡ seed_definitions (with_definitions [])
unfolding get_definition upsert_definition upsert_each seed_definitions
again_lem = refl

seed_definitions-IsSeeded_example :
    All (IsSeeded (seed_definitions (with_definitions (withdrawn_booking ∷ [])))) module_definitions
seed_definitions-IsSeeded_example =
    seed_definitions-IsSeeded (with_definitions (withdrawn_booking ∷ []))
