-- ===== src/Parties.antt =====
-- backend/app/modules/parties: the custom fields that any entity can carry.
pub mod Values
pub mod CustomFields
pub mod FieldRoundTrip
pub mod Prepared
mod Tests
