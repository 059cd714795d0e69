-- ===== src/Processing.antt =====
-- pkg/sloop/processing: what is written to the tables for a watch record.
pub mod Services
pub mod Watch
pub mod Activity
pub mod Summary
pub mod EventCount
pub mod Minutes
pub mod Runner
