-- ===== src/Registry.antt =====
-- backend/app/modules/module_registry/service.py: which modules a tenant has, and that an active
-- module keeps the modules it requires.
pub mod Service
pub mod Rows
pub mod Closure
pub mod Loading
pub mod Operations
pub mod Runs
pub mod Effects
pub mod Modes
pub mod External
pub mod ModeChanges
pub mod Seed
pub mod Seeded
mod SeedTests
mod Tests
