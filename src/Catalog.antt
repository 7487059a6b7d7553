-- ===== src/Catalog.antt =====
-- backend/apps/catalog: courses and their content, and the review that publishes them.
pub mod Model
pub mod Review
pub mod Order
pub mod Content
pub mod Lifecycle
pub mod Reach
pub mod Nesting
pub mod Nested
pub mod Selectors
pub mod Visibility
pub mod Lessons
pub mod Served
