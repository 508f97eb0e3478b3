-- ===== src/Tests/Server.antt =====
-- The servers at concrete inputs.
mod Prefork
mod Select
