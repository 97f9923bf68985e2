-- ===== src/Platform/Guard.antt =====
-- `ModuleGuard` of backend/app/core/modules.py over the queries of
-- modules/module_registry/repository.py.
use coreops_platform.Base.{
  ℕ, String, Bool, true, false, not, ◌&&◌, Option, none, some, List, [], ◌∷◌, Result, ok, ◌>>=◌,
  ◌>>◌, raise_if, or_raise, ◌==◌, str_eq, find?, filter, is_empty, if◌then◌else◌,
}
use coreops_platform.Platform.Defs.{
  CoreError, not_found, module_disabled, module_dependency, ModuleStatus, enabled, disabled, trial,
  suspended, ModuleMode, internal, external, hybrid, off, TenantModule, ModuleDefinition, Platform,
}

-- `status in ACTIVE_MODULE_STATUSES`
abbrev pub is_active_status : ModuleStatus → Bool
is_active_status enabled = true
is_active_status trial = true
is_active_status disabled = false
is_active_status suspended = false

abbrev pub mode_eq : ModuleMode → ModuleMode → Bool
mode_eq internal internal = true
mode_eq external external = true
mode_eq hybrid hybrid = true
mode_eq off off = true
mode_eq _ _ = false

abbrev pub is_row : ℕ → String → TenantModule → Bool
is_row tenant_id module_code m = m.tenant_id == tenant_id && str_eq m.module_code module_code

unfoldable pub get_tenant_module : Platform → ℕ → String → Option TenantModule
get_tenant_module p tenant_id module_code = find? (is_row tenant_id module_code) p.modules

unfoldable pub get_definition : Platform → String → Option ModuleDefinition
get_definition p code = find? (λ d. str_eq d.code code) p.definitions

-- `order_by(code)` only orders the rows.
unfoldable pub list_definitions : Platform → List ModuleDefinition
list_definitions p = filter (λ d. d.is_active) p.definitions

abbrev pub status_of_row : Option TenantModule → Bool
status_of_row none = false
status_of_row (some m) = is_active_status m.status

unfoldable pub is_active : Platform → ℕ → String → Bool
unfolding get_tenant_module
is_active p tenant_id module_code = status_of_row (get_tenant_module p tenant_id module_code)

unfoldable pub assert_enabled : Platform → ℕ → String → Result CoreError (Unit {0})
unfolding get_tenant_module
assert_enabled p tenant_id module_code = do
  m ← or_raise (get_tenant_module p tenant_id module_code) module_disabled
  raise_if (not (is_active_status m.status)) module_disabled

abbrev pub mode_in : List ModuleMode → ModuleMode → Bool
mode_in [] m = false
mode_in (x ∷ xs) m = let rest = mode_in xs m in if mode_eq m x then true else rest

unfoldable pub assert_mode : Platform → ℕ → String → List ModuleMode → Result CoreError (Unit {0})
unfolding assert_enabled get_tenant_module
assert_mode p tenant_id module_code allowed = do
  assert_enabled p tenant_id module_code
  m ← or_raise (get_tenant_module p tenant_id module_code) module_disabled
  raise_if (not (mode_in allowed m.mode)) module_disabled

unfoldable pub check_required_dependencies : Platform → ℕ → String → Result CoreError (List String)
unfolding get_definition is_active
check_required_dependencies p tenant_id module_code = do
  definition ← or_raise (get_definition p module_code) not_found
  ok (filter (λ dep. not (is_active p tenant_id dep)) definition.required)

unfoldable pub assert_dependencies : Platform → ℕ → String → Result CoreError (Unit {0})
unfolding check_required_dependencies
assert_dependencies p tenant_id module_code = do
  missing ← check_required_dependencies p tenant_id module_code
  raise_if (not (is_empty missing)) (module_dependency missing)

-- `module_code in required`
abbrev pub str_in : String → List String → Bool
str_in s [] = false
str_in s (x ∷ xs) = let rest = str_in s xs in if str_eq x s then true else rest

-- The sort of the result only orders it.
unfoldable pub list_active_dependents : Platform → ℕ → String → List ModuleDefinition
unfolding list_definitions is_active
list_active_dependents p tenant_id module_code =
    filter (λ d. str_in module_code d.required && is_active p tenant_id d.code) (list_definitions p)

abbrev pub codes_of : List ModuleDefinition → List String
codes_of [] = []
codes_of (d ∷ ds) = d.code ∷ codes_of ds

unfoldable pub assert_no_active_dependents : Platform → ℕ → String → Result CoreError (Unit {0})
unfolding list_active_dependents
assert_no_active_dependents p tenant_id module_code =
    let dependents = list_active_dependents p tenant_id module_code in
    raise_if (not (is_empty dependents)) (module_dependency (codes_of dependents))
