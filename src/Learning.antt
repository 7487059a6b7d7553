-- ===== src/Learning.antt =====
-- backend/apps/learning: what a learner has done, never what they may do.
pub mod Model
pub mod Services
pub mod Completion
pub mod Kept
pub mod Writes
pub mod History
pub mod Effects
pub mod Remark
pub mod Selectors
pub mod Next
