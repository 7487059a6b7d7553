-- ===== src/Media.antt =====
-- backend/apps/media_assets: the master file of a lesson, and the copy at the video provider.
pub mod Model
pub mod Storage
pub mod Services
pub mod Tasks
pub mod Pipeline
pub mod DeadLetters
pub mod Webhooks
pub mod Selectors
