-- ===== src/Server.antt =====
-- The servers that hold many clients at once.
pub mod Prefork
pub mod Select
