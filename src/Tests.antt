-- ===== src/Tests.antt =====
-- The theorems at concrete inputs: a few users, requests and tables, with the services in memory.
pub mod Fixtures
mod Sessions
mod Logins
mod Verifications
mod Outboxes
mod Resends
mod RateLimits
mod Gateways
mod Registrations
mod Brokers
mod Mails
mod Startups
mod Redises
mod Lookups
mod Photos
mod Uploads
