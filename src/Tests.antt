-- ===== src/Tests.antt =====
-- Runs of the definitions at concrete inputs, and each theorem at an input that meets it.
mod Script
mod Cksum
mod Connect
mod Dial
mod Gai
mod Io
mod Nameinfo
mod Nonblock
mod Rtt
mod Server
mod Sock
mod Trace
mod Uno
