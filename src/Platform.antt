-- ===== src/Platform.antt =====
-- What every module of the backend stands on: the exceptions of backend/app/core/exceptions.py, the
-- module guard of core/modules.py and the entitlements of core/entitlements.py.
mod Defs
pub mod Guard
pub mod Entitlements
pub mod Usage
pub use Defs.*
