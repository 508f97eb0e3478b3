-- ===== src/Gai/Types.antt =====
-- libgai/addrinfo.h, libgai/gai_hdr.h: the structures and constants, and what the library calls.
use unpv13e.Base.{
  ℕ, ◌/◌, ◌%◌, List, [], ◌∷◌, Bool, true, false, not, ◌&&◌, ◌||◌, Option, none, some, ◌==◌, leb,
}

-- The bytes of a string in front of its null.
abbrev pub Str : Type 0
Str = List ℕ

-- Constants of the system's headers. Only their being different matters.
abbrev pub af_unspec : ℕ
af_unspec = 0

abbrev pub af_local : ℕ
af_local = 1

abbrev pub af_inet : ℕ
af_inet = 2

abbrev pub af_inet6 : ℕ
af_inet6 = 10

abbrev pub sock_stream : ℕ
sock_stream = 1

abbrev pub sock_dgram : ℕ
sock_dgram = 2

abbrev pub sock_raw : ℕ
sock_raw = 3

-- `sizeof` of `sun_path` and of the three socket address structures.
abbrev pub sun_path_size : ℕ
sun_path_size = 108

abbrev pub sockaddr_in_size : ℕ
sockaddr_in_size = 16

abbrev pub sockaddr_in6_size : ℕ
sockaddr_in6_size = 28

abbrev pub sockaddr_un_size : ℕ
sockaddr_un_size = 110

-- Flags are the bit pattern of an `int`: AI_PASSIVE is bit 0, AI_CANONNAME bit 1, AI_CLONE bit 2.
abbrev pub ai_clone : ℕ
ai_clone = 4

abbrev pub has_passive : ℕ → Bool
has_passive flags = flags % 2 == 1

abbrev pub has_canonname : ℕ → Bool
has_canonname flags = flags / 2 % 2 == 1

abbrev pub has_clone : ℕ → Bool
has_clone flags = flags / 4 % 2 == 1

-- `flags & ~(AI_PASSIVE | AI_CANONNAME)`
abbrev pub has_unknown : ℕ → Bool
has_unknown flags = not (flags / 4 == 0)

abbrev pub eai_addrfamily : ℕ
eai_addrfamily = 1

abbrev pub eai_again : ℕ
eai_again = 2

abbrev pub eai_badflags : ℕ
eai_badflags = 3

abbrev pub eai_fail : ℕ
eai_fail = 4

abbrev pub eai_family : ℕ
eai_family = 5

abbrev pub eai_memory : ℕ
eai_memory = 6

abbrev pub eai_nodata : ℕ
eai_nodata = 7

abbrev pub eai_noname : ℕ
eai_noname = 8

abbrev pub eai_service : ℕ
eai_service = 9

abbrev pub eai_socktype : ℕ
eai_socktype = 10

abbrev pub eai_system : ℕ
eai_system = 11

-- A socket address structure; a port is in network byte order.
pub data Sockaddr : Type 0 where
  sin : Str → ℕ → Sockaddr
  sin6 : Str → ℕ → Sockaddr
  sun : Str → Sockaddr

-- `struct addrinfo`, without the link: a list of these is the chain of `ai_next`.
pub record Addrinfo : Type 0 where
  pub flags : ℕ
  pub family : ℕ
  pub socktype : ℕ
  pub protocol : ℕ
  pub addrlen : ℕ
  pub canonname : Option Str
  pub addr : Option Sockaddr

-- The members of the hints that are read.
pub record Hints : Type 0 where
  pub flags : ℕ
  pub family : ℕ
  pub socktype : ℕ
  pub protocol : ℕ

-- `struct search`
pub record Search : Type 0 where
  pub host : Str
  pub family : ℕ

-- What the allocations to come answer (all succeed when the list is over), and the paths unlinked.
pub record World : Type 0 where
  pub answers : List Bool
  pub unlinked : List Str

abbrev pub alloc : World → Bool × World
alloc w = elim w.answers [ [] ↦ (true, w) | b ∷ bs ↦ (b, record w { answers = bs }) ]

-- `s == NULL || s[0] == '\0'`
abbrev pub is_blank : Option Str → Bool
is_blank none = true
is_blank (some []) = true
is_blank (some (c ∷ s)) = false

abbrev pub is_digit : ℕ → Bool
is_digit c = leb b'0' c && leb c b'9'

abbrev pub is_xdigit : ℕ → Bool
is_xdigit c = is_digit c || (leb b'a' c && leb c b'f') || (leb b'A' c && leb c b'F')
