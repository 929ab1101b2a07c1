-- ===== src/Quota.antt =====
-- src/quota/quota.service.ts: the allowances of an owner's plan, the add-on grants beside them, the
-- capacity for listings and the boosts that a plan includes.
pub mod Period
pub mod Consumption
pub mod Capacity
pub mod Boosts
