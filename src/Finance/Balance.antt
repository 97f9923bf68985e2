-- ===== src/Finance/Balance.antt =====
-- That the operations of backend/app/modules/finance/service.py keep the books balanced.
pub mod Defs
pub mod Money
pub mod Items
pub mod Spending
pub mod Operations
pub mod Updates
pub mod Runs
pub mod Accepts
