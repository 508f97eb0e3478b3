-- ===== src/Nonblock.antt =====
-- Descriptors that do not block: nonblock/strclinonb.c, a client that copies its standard input to a
-- socket and the socket to its standard output, and lib/connect_nonb.c.
pub mod Buffer
pub mod Client
pub mod Connect
