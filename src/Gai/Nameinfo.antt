-- ===== src/Gai/Nameinfo.antt =====
-- libgai/getnameinfo.c and libgai/gn_ipv46.c: the names for an address and a port.
pub mod Decimal
pub mod Fits
use unpv13e.Base.{
  ℕ, zero, suc, ◌+◌, ◌-◌, ◌/◌, ◌%◌, List, [], ◌∷◌, ◌++◌, Bool, true, false, Option, none, some,
  ◌==◌, ltb, if◌then◌else◌, take,
}
use unpv13e.Gai.Types.{Str, Sockaddr, sin, sin6, sun, af_inet, af_inet6}

-- What the library asks the system for: `inet_ntop` on a family, an address and the room for it, the name
-- from `gethostbyaddr`, and the name from `getservbyport`, with "udp" or with no protocol.
pub record Resolver : Type 0 where
  pub inet_ntop : ℕ → Str → ℕ → Option Str
  pub gethostbyaddr : Str → ℕ → Option Str
  pub getservbyport : ℕ → Bool → Option Str
  pub ntohs : ℕ → ℕ

-- The NI_xxx flags: NOFQDN is bit 0, NUMERICHOST bit 1, NAMEREQD bit 2, NUMERICSERV bit 3, DGRAM bit 4.
abbrev pub wants_nofqdn : ℕ → Bool
wants_nofqdn flags = flags % 2 == 1

abbrev pub wants_numerichost : ℕ → Bool
wants_numerichost flags = flags / 2 % 2 == 1

abbrev pub needs_name : ℕ → Bool
needs_name flags = flags / 4 % 2 == 1

abbrev pub wants_numericserv : ℕ → Bool
wants_numericserv flags = flags / 8 % 2 == 1

abbrev pub is_dgram : ℕ → Bool
is_dgram flags = flags / 16 % 2 == 1

-- `snprintf` of a string into `n` bytes, one of which is for the null.
abbrev pub snprintf : ℕ → Str → Str
snprintf n s = take (n - 1) s

-- "%d" of a number with as many digits at most.
pub digits : ℕ → ℕ → Str
digits zero n = []
digits (suc k) n =
    let front = digits k (n / 10) in
    let last : Str = (b'0' + n % 10) ∷ [] in if ltb n 10 then last else front ++ last

-- A port is below 65536.
unfoldable pub decimal : ℕ → Str
unfolding digits
decimal port = digits 5 port

-- The name up to its first dot.
abbrev pub before_dot : Str → Str
before_dot [] = []
before_dot (c ∷ s) = let rest = before_dot s in if c == b'.' then [] else c ∷ rest

-- 0 with what was stored for the host and for the service (`none` where there is no room at all), or 1.
pub data Named : Type 0 where
  named : Option Str → Option Str → Named
  failed : Named

-- What is stored for the host; `unnamed` is the return of 1.
pub data Host : Type 0 where
  stored : Str → Host
  unnamed : Host

abbrev pub to_host : Option Str → Host
to_host none = unnamed
to_host (some s) = stored s

abbrev pub cut_name : ℕ → Str → Str
cut_name flags name = if wants_nofqdn flags then before_dot name else name

module _ (res : Resolver) where
  -- The name from `gethostbyaddr`, or the address as text unless a name is required.
  pub from_addr : ℕ → ℕ → Str → ℕ → Option Str → Host
  from_addr hostlen family addr flags (some name) = stored (snprintf hostlen (cut_name flags name))
  from_addr hostlen family addr flags none =
      if needs_name flags then unnamed else to_host (res.inet_ntop family addr hostlen)

  pub host_name : ℕ → ℕ → Str → ℕ → Host
  unfolding from_addr
  host_name hostlen family addr flags =
      if wants_numerichost flags
      then to_host (res.inet_ntop family addr hostlen)
      else from_addr hostlen family addr flags (res.gethostbyaddr addr family)

  pub of_service : ℕ → ℕ → Option Str → Str
  of_service servlen port (some name) = snprintf servlen name
  of_service servlen port none = snprintf servlen (decimal (res.ntohs port))

  pub serv_name : ℕ → ℕ → ℕ → Str
  unfolding of_service
  serv_name servlen port flags =
      if wants_numericserv flags
      then snprintf servlen (decimal (res.ntohs port))
      else of_service servlen port (res.getservbyport port (is_dgram flags))

  -- `if (servlen > 0)`
  abbrev pub stored_serv : ℕ → ℕ → ℕ → Option Str
  stored_serv servlen port flags =
      if servlen == 0 then none else some (serv_name servlen port flags)

  pub with_host : ℕ → ℕ → ℕ → Host → Named
  with_host servlen port flags unnamed = failed
  with_host servlen port flags (stored h) = named (some h) (stored_serv servlen port flags)

  pub gn_ipv46 : ℕ → ℕ → Str → ℕ → ℕ → ℕ → Named
  unfolding with_host host_name serv_name
  gn_ipv46 hostlen servlen addr family port flags =
      if hostlen == 0
      then named none (stored_serv servlen port flags)
      else with_host servlen port flags (host_name hostlen family addr flags)

  -- "/local"
  abbrev pub slash_local : Str
  slash_local = b'/' ∷ b'l' ∷ b'o' ∷ b'c' ∷ b'a' ∷ b'l' ∷ []

  abbrev pub stored_text : ℕ → Str → Option Str
  stored_text n s = if n == 0 then none else some (snprintf n s)

  -- A structure of another family, for which 1 is returned, is `none`.
  unfoldable pub getnameinfo : Option Sockaddr → ℕ → ℕ → ℕ → Named
  unfolding gn_ipv46
  getnameinfo none hostlen servlen flags = failed
  getnameinfo (some (sin a port)) hostlen servlen flags =
      gn_ipv46 hostlen servlen a af_inet port flags
  getnameinfo (some (sin6 a port)) hostlen servlen flags =
      gn_ipv46 hostlen servlen a af_inet6 port flags
  getnameinfo (some (sun path)) hostlen servlen flags =
      named (stored_text hostlen slash_local) (stored_text servlen path)
