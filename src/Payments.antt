-- ===== src/Payments.antt =====
-- src/payments/payments.service.ts: a checkout stores a pending transaction, the provider's callback
-- or the hourly reconciliation settles it, and a settled one delivers what was bought, once.
pub mod Delivery
pub mod Settlement
pub mod Reconcile
