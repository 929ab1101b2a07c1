-- ===== src/Tests.antt =====
-- The theorems applied to a small shop, and runs of the handlers on it.
mod Shop
mod Payments
mod Quota
mod Config
mod TenantOffers
mod Leases
mod Offers
mod Messages
mod Accounts
mod Support
mod Properties
mod Reviews
