-- ===== src/Booking.antt =====
-- backend/app/modules/booking: the data, the queries and the three services.
pub mod Model
pub mod Timezone
pub mod Repository
pub mod Orders
pub mod Availability
pub mod Hold
pub mod Safety
pub mod CartCheck
pub mod Intervals
pub mod Lifecycle
mod Scenario
mod Tests
