-- ===== src/Core.antt =====
-- backend/apps/core: the audit trail, the inbox of the webhooks, and the metrics.
pub mod Audit
pub mod Inbox
pub mod Metrics
