-- ===== src/Gai.antt =====
-- libgai: getaddrinfo and getnameinfo, and what they are made of, with IPv4, IPv6 and Unix domain all
-- compiled in.
pub mod Types
pub mod Search
pub mod Build
pub mod Serv
pub mod Lookup
pub mod Nameinfo
