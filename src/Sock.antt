-- ===== src/Sock.antt =====
-- lib/sock_cmp_addr.c, lib/sock_cmp_port.c, lib/sock_get_port.c, lib/sock_set_addr.c,
-- lib/sock_set_port.c, lib/sock_set_wild.c and lib/family_to_level.c, with IPV6 and AF_UNIX defined.
pub mod Laws
use unpv13e.Base.{
  ℕ, zero, suc, ◌%◌, ◌^◌, List, [], ◌∷◌, Bool, true, false, ◌==◌, ltb, if◌then◌else◌, ℤ, pos,
  negsuc, take, replicate, Option, none, some,
}

-- A socket address structure: an IPv4 or IPv6 one with its address and port, a Unix domain one with its
-- path, or one of another family. Structures are told apart by `sa_family`.
pub data Sockaddr : Type 0 where
  sin : List ℕ → ℕ → Sockaddr
  sin6 : List ℕ → ℕ → Sockaddr
  sun : List ℕ → Sockaddr
  other : ℕ → Sockaddr

-- `memcmp` of as many bytes, and `strcmp` of strings without their null.
abbrev pub memcmp : List ℕ → List ℕ → ℤ
memcmp [] [] = pos 0
memcmp [] (b ∷ bs) = negsuc 0
memcmp (a ∷ as') [] = pos 1
memcmp (a ∷ as') (b ∷ bs) =
    let rest = memcmp as' bs in if a == b then rest else if ltb a b then negsuc 0 else pos 1

unfoldable pub sock_cmp_addr : Sockaddr → Sockaddr → ℤ
sock_cmp_addr (sin a p) (sin b q) = memcmp a b
sock_cmp_addr (sin6 a p) (sin6 b q) = memcmp a b
sock_cmp_addr (sun a) (sun b) = memcmp a b
sock_cmp_addr _ _ = negsuc 0

abbrev pub of_bool : Bool → ℤ
of_bool true = pos 1
of_bool false = pos 0

unfoldable pub sock_cmp_port : Sockaddr → Sockaddr → ℤ
sock_cmp_port (sin a p) (sin b q) = of_bool (p == q)
sock_cmp_port (sin6 a p) (sin6 b q) = of_bool (p == q)
sock_cmp_port _ _ = negsuc 0

unfoldable pub sock_get_port : Sockaddr → ℤ
sock_get_port (sin a p) = pos p
sock_get_port (sin6 a p) = pos p
sock_get_port _ = negsuc 0

-- `memcpy` of the size of the address.
unfoldable pub sock_set_addr : Sockaddr → List ℕ → Sockaddr
sock_set_addr (sin a p) addr = sin (take 4 addr) p
sock_set_addr (sin6 a p) addr = sin6 (take 16 addr) p
sock_set_addr (sun a) addr = sun a
sock_set_addr (other f) addr = other f

-- The port is an `int`, and its low 16 bits are stored.
unfoldable pub sock_set_port : Sockaddr → ℕ → Sockaddr
sock_set_port (sin a p) port = sin a (port % 2 ^ 16)
sock_set_port (sin6 a p) port = sin6 a (port % 2 ^ 16)
sock_set_port (sun a) port = sun a
sock_set_port (other f) port = other f

-- The wildcard addresses are all zeros.
unfoldable pub sock_set_wild : Sockaddr → Sockaddr
unfolding sock_set_addr
sock_set_wild (sin a p) = sock_set_addr (sin a p) (replicate 4 0)
sock_set_wild (sin6 a p) = sock_set_addr (sin6 a p) (replicate 16 0)
sock_set_wild (sun a) = sun a
sock_set_wild (other f) = other f
