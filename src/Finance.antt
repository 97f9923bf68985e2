-- ===== src/Finance.antt =====
-- backend/app/modules/finance: invoices, payments, and the allocation of payments to invoices.
pub mod Model
pub mod Rounding
pub mod Repository
pub mod Invoices
pub mod Payments
pub mod Reports
pub mod Billing
pub mod Collection
pub mod Receivables
mod Scenario
mod Tests
mod AllocationTests
pub mod Balance
