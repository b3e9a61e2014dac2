-- ===== src/Models.antt =====
-- ctxttl.models
pub mod Dimensions
pub mod Context
pub mod Event
