-- ===== src/Compiler.antt =====
-- ctxttl.compiler: from messages and context items to one request under a token budget
pub mod Budget
pub mod Units
pub mod Rendering
pub mod Context
pub mod Compile
mod Tests
