-- ===== src/Gai/Search.antt =====
-- libgai/ga_echeck.c and libgai/ga_nsearch.c: the checks on the arguments, and the names and families
-- that are to be looked up.
pub mod Laws
use unpv13e.Base.{
  ℕ, zero, suc, List, [], ◌∷◌, Bool, true, false, not, ◌&&◌, ◌||◌, Option, none, some, ◌==◌,
  if◌then◌else◌,
}
use unpv13e.Gai.Types.{
  Str, Search, Hints, af_unspec, af_local, af_inet, af_inet6, sock_stream, sock_dgram, sock_raw,
  has_passive, has_unknown, eai_badflags, eai_noname, eai_socktype, eai_family, is_blank,
}

-- A socket type that an IP family takes, and one that the Unix domain takes.
abbrev pub is_ip_socktype : ℕ → Bool
is_ip_socktype t = t == 0 || t == sock_stream || t == sock_dgram || t == sock_raw

abbrev pub is_local_socktype : ℕ → Bool
is_local_socktype t = t == 0 || t == sock_stream || t == sock_dgram

unfoldable pub ga_echeck : Option Str → Option Str → ℕ → ℕ → ℕ → ℕ → ℕ
ga_echeck hostname servname flags family socktype protocol =
    if has_unknown flags
    then eai_badflags
    else if is_blank hostname && is_blank servname
    then eai_noname
    else if family == af_unspec
    then 0
    else if family == af_inet
    then (if is_ip_socktype socktype then 0 else eai_socktype)
    else if family == af_inet6
    then (if is_ip_socktype socktype then 0 else eai_socktype)
    else if family == af_local
    then (if is_local_socktype socktype then 0 else eai_socktype)
    else eai_family

-- "0.0.0.0", "0::0", "localhost", "0::1"
abbrev pub any4 : Str
any4 = b'0' ∷ b'.' ∷ b'0' ∷ b'.' ∷ b'0' ∷ b'.' ∷ b'0' ∷ []

abbrev pub any6 : Str
any6 = b'0' ∷ b':' ∷ b':' ∷ b'0' ∷ []

abbrev pub localhost : Str
localhost = b'l' ∷ b'o' ∷ b'c' ∷ b'a' ∷ b'l' ∷ b'h' ∷ b'o' ∷ b's' ∷ b't' ∷ []

abbrev pub loopback6 : Str
loopback6 = b'0' ∷ b':' ∷ b':' ∷ b'1' ∷ []

-- The `switch` on the family, with the name for each of the two: IPv6 first.
abbrev pub entries : ℕ → Str → Str → List Search
entries family host4 host6 =
    if family == af_inet
    then record { host = host4; family = af_inet } ∷ []
    else if family == af_inet6
    then record { host = host6; family = af_inet6 } ∷ []
    else if family == af_unspec
    then record { host = host6; family = af_inet6 } ∷ record { host = host4; family = af_inet } ∷ []
    else []

abbrev pub search_of : Option Str → ℕ → ℕ → List Search
search_of (some (c ∷ s)) flags family = entries family (c ∷ s) (c ∷ s)
search_of hostname flags family =
    if has_passive flags then entries family any4 any6 else entries family localhost loopback6

-- The entries of `search[]`; `none` where their number is out of range and the process ends in
-- `err_quit`.
abbrev pub checked : List Search → Option (List Search)
checked [] = none
checked (a ∷ []) = some (a ∷ [])
checked (a ∷ b ∷ []) = some (a ∷ b ∷ [])
checked (a ∷ b ∷ c ∷ s) = none

unfoldable pub ga_nsearch : Option Str → Hints → Option (List Search)
ga_nsearch hostname h = checked (search_of hostname h.flags h.family)
