-- ===== src/Queries.antt =====
-- pkg/sloop/queries: the time range of a query, the filters on rows, the payloads of an object, and the
-- timeline.
pub mod TimeRange
pub mod TimeFilter
pub mod RowFilter
pub mod Payloads
pub mod HeatMap
pub mod Run
