-- ===== src/Tools.antt =====
-- The tool modules under tools/: the handlers over the guard, the database layer and the helper.
pub mod Base
pub mod Rows
pub mod Query
pub mod ConfigFiles
pub mod Observability
pub mod Introspection
mod Tests
