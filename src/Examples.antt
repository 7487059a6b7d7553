-- ===== src/Examples.antt =====
-- Concrete accounts, and the theorems applied to concrete stores.
mod People
mod Access
mod Billing
mod Courses
mod Learners
mod Uploads
mod Transcripts
mod Sections
mod Signup
mod Deliveries
mod Reads
mod Doors
