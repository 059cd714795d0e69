-- ===== src/Typed.antt =====
-- pkg/sloop/store/typed: the keys of the four tables, the generated table code, the list of tables.
pub mod Key
pub mod WatchKey
pub mod SummaryKey
pub mod EventCountKey
pub mod ActivityKey
pub mod Schema
pub mod Table
pub mod Tables
