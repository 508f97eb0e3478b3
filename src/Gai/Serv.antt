-- ===== src/Gai/Serv.antt =====
-- libgai/ga_serv.c: the service's name or number.
pub mod Laws
use unpv13e.Base.{
  ℕ, zero, suc, ◌+◌, ◌-◌, ◌*◌, ◌%◌, ◌^◌, List, [], ◌∷◌, Bool, true, false, ◌||◌, Option, none, some,
  ◌==◌, if◌then◌else◌,
}
use unpv13e.Gai.Types.{
  Str, Addrinfo, Hints, World, sock_stream, sock_dgram, eai_memory, eai_noname, eai_service,
  is_digit,
}
use unpv13e.Gai.Build.{Pass, ga_port}

pub data Proto : Type 0 where
  tcp udp : Proto

-- What `h_errno` tells.
pub data HErrno : Type 0 where
  host_not_found try_again no_recovery no_data : HErrno
  other_herrno : ℕ → HErrno

-- A `struct hostent`: the official name, the type and the addresses; or NULL.
pub data Hostent : Type 0 where
  host : Str → ℕ → List Str → Hostent
  no_host : HErrno → Hostent

-- What the library asks the system for. `gethostbyname b` is the call with RES_USE_INET6 on or off.
pub record System : Type 0 where
  pub htons : ℕ → ℕ
  pub getservbyname : Str → Proto → Option ℕ
  pub inet_pton4 : Str → Option Str
  pub inet_pton6 : Str → Option Str
  pub gethostbyname2 : Str → ℕ → Hostent
  pub gethostbyname : Bool → Str → Hostent
  pub nodename : Option Str

-- `atoi` on a string that begins with a digit.
unfoldable pub atoi_from : ℕ → Str → ℕ
atoi_from acc [] = acc
atoi_from acc (c ∷ s) =
    let rest = atoi_from (acc * 10 + (c - b'0')) s in if is_digit c then rest else acc

abbrev pub atoi : Str → ℕ
atoi = atoi_from 0

-- The passes so far: with the number of ports set, or with the error that is returned.
pub data Filling : Type 0 where
  going : ℕ → List Addrinfo → World → Filling
  stopped : ℕ → List Addrinfo → World → Filling

abbrev pub add_pass : ℕ → Pass → Filling
add_pass n (none, l, w) = stopped eai_memory l w
add_pass n (some k, l, w) = going (n + k) l w

pub fill : ℕ → ℕ → Filling → Filling
fill port socktype (stopped e l w) = stopped e l w
fill port socktype (going n l w) = add_pass n (ga_port port socktype l w)

-- A pass for a service that `getservbyname` knows.
pub fill_service : Option ℕ → ℕ → Filling → Filling
fill_service none socktype f = f
fill_service (some port) socktype f = fill port socktype f

abbrev pub starts_with_digit : Str → Bool
starts_with_digit [] = false
starts_with_digit (c ∷ s) = is_digit c

pub found_or_not : ℕ → Filling → ℕ × List Addrinfo × World
found_or_not socktype (stopped e l w) = (e, l, w)
found_or_not socktype (going zero l w) = (if socktype == 0 then eai_noname else eai_service, l, w)
found_or_not socktype (going (suc n) l w) = (0, l, w)

module _ (sys : System) where
  pub by_number : ℕ → ℕ → Filling → Filling
  by_number port socktype f =
      if socktype == 0 then fill port sock_dgram (fill port sock_stream f) else fill port socktype f

  pub by_name : Str → ℕ → Filling → Filling
  by_name serv socktype f =
      let f' =
        if socktype == 0 || socktype == sock_stream
        then fill_service (sys.getservbyname serv tcp) sock_stream f
        else f in
      if socktype == 0 || socktype == sock_dgram
      then fill_service (sys.getservbyname serv udp) sock_dgram f'
      else f'

  unfoldable pub ga_serv : List Addrinfo → Hints → Str → World → ℕ × List Addrinfo × World
  unfolding fill fill_service found_or_not by_number by_name ga_port atoi_from
  ga_serv l h serv w = found_or_not h.socktype (
      if starts_with_digit serv
      then by_number (sys.htons (atoi serv % 2 ^ 16)) h.socktype (going 0 l w)
      else by_name serv h.socktype (going 0 l w))
