-- ===== src/Tools/Introspection.antt =====
-- tools/introspection.py: the tools that show a database's shape and the service's capabilities.
pub mod Queries
pub mod Collect
pub mod Handlers
pub mod Guarded
pub mod Target
mod Tests
