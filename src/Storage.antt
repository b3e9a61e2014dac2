-- ===== src/Storage.antt =====
-- ctxttl.storage.sqlite: the event store and its projections
pub mod Tables
pub mod Transaction
pub mod Equality
pub mod Rows
pub mod Store
pub mod Queries
pub mod Runs
mod Tests
