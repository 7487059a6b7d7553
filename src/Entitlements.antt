-- ===== src/Entitlements.antt =====
-- backend/apps/entitlements: who may see gated lessons, and the subscription state behind it.
pub mod Model
pub mod Resolver
pub mod Provider
pub mod Services
pub mod Selectors
pub mod Reconciliation
