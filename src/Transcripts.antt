-- ===== src/Transcripts.antt =====
-- backend/apps/transcripts: transcripts of lessons, their review, and the text of their cues.
pub mod Model
pub mod Services
pub mod Review
pub mod Cues
pub mod Webhooks
pub mod Requests
pub mod Submission
pub mod Callback
pub mod Early
pub mod Selectors
pub mod Scope
pub mod Rendering
pub mod Digits
pub mod Stamps
