-- ===== src/Booking/Safety.antt =====
-- That backend/app/modules/booking never books an object twice: the specification, and what each
-- operation does to it.
mod Defs
pub mod Weaker
pub mod Transitions
pub mod Operations
pub mod Sweep
pub mod SweepTotal
pub mod NewHold
pub mod PlaceHold
pub mod CreateHold
pub mod Reach
pub mod DoubleStay
pub use Defs.*
