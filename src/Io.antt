-- ===== src/Io.antt =====
-- Transfers over a descriptor: lib/readn.c, lib/writen.c, lib/readline.c and lib/str_echo.c.
pub mod System
pub mod Readn
pub mod Writen
pub mod Readline
pub mod Echo
