-- ===== src/Leads.antt =====
-- backend/app/modules/public_leads: the rate limit of the public intake of leads.
mod RateLimit
mod Buckets
mod Windows
mod Tests
