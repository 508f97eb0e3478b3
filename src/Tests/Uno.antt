-- ===== src/Tests/Uno.antt =====
-- Runs of the game server at concrete states.
mod Table
mod Game
mod Rooms
