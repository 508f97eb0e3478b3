-- ===== src/Gai/Lookup.antt =====
-- libgai/getaddrinfo.c and libgai/ga_unix.c.
pub mod Hosts
pub mod Unix
pub mod Laws
use unpv13e.Base.{
  ℕ, zero, suc, ◌+◌, List, [], ◌∷◌, ◌++◌, Bool, true, false, not, ◌&&◌, ◌||◌, Option, none, some,
  ◌==◌, length, if◌then◌else◌,
}
use unpv13e.Gai.Types.{
  Str, Addrinfo, Hints, Search, World, alloc, af_unspec, af_local, af_inet, af_inet6, sock_stream,
  sock_dgram, has_canonname, eai_addrfamily, eai_again, eai_fail, eai_memory, eai_nodata,
  eai_noname, eai_system, is_blank, is_digit, is_xdigit,
}
use unpv13e.Gai.Search.{ga_echeck, ga_nsearch}
use unpv13e.Gai.Build.{ga_aistruct}
use unpv13e.Gai.Serv.{
  HErrno, host_not_found, try_again, no_recovery, no_data, other_herrno, Hostent, host, no_host,
  System, starts_with_digit, ga_serv,
}

-- `success l`: 0, with the list through `result`. `failure rc kept`: an error, where `kept` is a copy
-- of a name that was made and neither freed nor handed on; whether the list is freed is not in
-- it. `err_quit`: the process has ended.
pub data Result : Type 0 where
  success : List Addrinfo → World → Result
  failure : ℕ → Option Str → World → Result
  err_quit : Result

-- The search so far: the list, `canon`, or an error.
pub data Looking : Type 0 where
  looking : List Addrinfo → Option Str → World → Looking
  gave_up : ℕ → Option Str → World → Looking

-- The name of a host that stands in the list of names: "/local" and "/unix".
abbrev pub slash_local : Str
slash_local = b'/' ∷ b'l' ∷ b'o' ∷ b'c' ∷ b'a' ∷ b'l' ∷ []

abbrev pub slash_unix : Str
slash_unix = b'/' ∷ b'u' ∷ b'n' ∷ b'i' ∷ b'x' ∷ []

abbrev pub str_eq : Str → Str → Bool
str_eq [] [] = true
str_eq (a ∷ s) (b ∷ t) = (a == b) && str_eq s t
str_eq _ _ = false

abbrev pub has_char : ℕ → Str → Bool
has_char c [] = false
has_char c (a ∷ s) = (a == c) || has_char c s

abbrev pub is_local_name : Option Str → Bool
is_local_name none = false
is_local_name (some s) = str_eq s slash_local || str_eq s slash_unix

abbrev pub is_path : Option Str → Bool
is_path none = false
is_path (some []) = false
is_path (some (c ∷ s)) = c == b'/'

-- `isxdigit(host[0]) || host[0] == ':'`, and a colon somewhere
abbrev pub may_be_ip6 : Str → Bool
may_be_ip6 [] = false
may_be_ip6 (c ∷ s) = (is_xdigit c || (c == b':')) && has_char b':' (c ∷ s)

abbrev pub set_canon : Str → List Addrinfo → List Addrinfo
set_canon name [] = []
set_canon name (ai ∷ l) = record ai { canonname = some name } ∷ l

abbrev pub of_herrno : HErrno → ℕ
of_herrno host_not_found = eai_noname
of_herrno try_again = eai_again
of_herrno no_recovery = eai_fail
of_herrno no_data = eai_nodata
of_herrno (other_herrno e) = eai_noname

-- One structure more, or the error that makes the search give up.
abbrev pub built : Option Str → ℕ × List Addrinfo × World → Looking
built canon (zero, l, w) = looking l canon w
built canon (suc e, l, w) = gave_up (suc e) canon w

-- A string that is an address: used if its family is that of the entry, and ignored if not.
pub numeric : Hints → ℕ → Search → Str → List Addrinfo → Option Str → World → Looking
numeric h family s addr l canon w =
    if not (h.family == af_unspec) && not (h.family == family)
    then gave_up eai_addrfamily canon w
    else if s.family == family
    then built canon (ga_aistruct h addr family l w)
    else looking l canon w

-- One structure for each address.
pub each_addr : Hints → ℕ → List Str → Looking → Looking
each_addr h family [] k = k
each_addr h family (a ∷ as') (gave_up e canon w) = gave_up e canon w
each_addr h family (a ∷ as') (looking l canon w) =
    each_addr h family as' (built canon (ga_aistruct h a family l w))

abbrev pub wants_canon : Option Str → Hints → Bool
wants_canon hostname h = not (is_blank hostname) && has_canonname h.flags

-- The canonical name is saved the first time.
pub save_canon : Option Str → Hints → Str → List Addrinfo → Option Str → World → Looking
save_canon hostname h name l (some c) w = looking l (some c) w
save_canon hostname h name l none w =
    let (ok, w') = alloc w in
    if wants_canon hostname h
    then (if ok then looking l (some name) w' else gave_up eai_memory none w')
    else looking l none w

pub from_host : Option Str → Hints → Bool → Hostent → List Addrinfo → Option Str → World → Looking
from_host hostname h several (no_host e) l canon w =
    if several then looking l canon w else gave_up (of_herrno e) canon w
from_host hostname h several (host name addrtype addrs) l canon w =
    if not (h.family == af_unspec) && not (h.family == addrtype)
    then gave_up eai_addrfamily canon w
    else each_addr h addrtype addrs (save_canon hostname h name l canon w)

module _ (sys : System) where
  -- `gethostbyname2` where there are two searches.
  abbrev pub lookup : Bool → Search → Hostent
  lookup several s =
      if several
      then sys.gethostbyname2 s.host s.family
      else sys.gethostbyname (s.family == af_inet6) s.host

  -- An address in the form of one of the two families, if the string is one.
  abbrev pub as_ip4 : Str → Option Str
  as_ip4 s = if starts_with_digit s then sys.inet_pton4 s else none

  abbrev pub as_ip6 : Str → Option Str
  as_ip6 s = if may_be_ip6 s then sys.inet_pton6 s else none

  -- The body of the loop over `search[]`, tried in turn as an IPv4 address, an IPv6 address, a name.
  pub by_form :
      Option Str
      → Hints
      → Bool
      → Search
      → Option Str
      → Option Str
      → List Addrinfo
      → Option Str
      → World
      → Looking
  by_form hostname h several s (some a) ip6 l canon w = numeric h af_inet s a l canon w
  by_form hostname h several s none (some a) l canon w = numeric h af_inet6 s a l canon w
  by_form hostname h several s none none l canon w =
      from_host hostname h several (lookup several s) l canon w

  pub search_each : Option Str → Hints → Bool → List Search → Looking → Looking
  search_each hostname h several [] k = k
  search_each hostname h several (s ∷ ss) (gave_up e canon w) = gave_up e canon w
  search_each hostname h several (s ∷ ss) (looking l canon w) =
      search_each hostname h several ss
        (by_form hostname h several s (as_ip4 s.host) (as_ip6 s.host) l canon w)

  abbrev pub served : ℕ × List Addrinfo × World → Result
  served (zero, l, w) = success l w
  served (suc e, l, w) = failure (suc e) none w

  -- The service's name, if there is one.
  pub with_service : Hints → Option Str → List Addrinfo → World → Result
  with_service h servname l w = elim servname [
    | none ↦ success l w
    | some [] ↦ success l w
    | some (c ∷ s) ↦ served (ga_serv sys l h (c ∷ s) w)
  ]

  -- The canonical name goes to the first structure: the saved one, or a copy of the first name
  -- searched for.
  pub named : Hints → Option Str → Str → List Addrinfo → Option Str → World → Result
  named h servname first l (some c) w = with_service h servname (set_canon c l) w
  named h servname first l none w =
      let (ok, w') = alloc w in
      if ok then with_service h servname (set_canon first l) w' else failure eai_memory none w'

  -- What follows the search.
  pub conclude : Option Str → Option Str → Hints → Str → Looking → Result
  conclude hostname servname h first (gave_up e canon w) = failure e canon w
  conclude hostname servname h first (looking [] canon w) = failure eai_noname canon w
  conclude hostname servname h first (looking (ai ∷ l) canon w) =
      if wants_canon hostname h
      then named h servname first (ai ∷ l) canon w
      else with_service h servname (ai ∷ l) w

  abbrev pub first_host : List Search → Str
  first_host [] = []
  first_host (s ∷ ss) = s.host

  pub searched : Option Str → Option Str → Hints → World → Option (List Search) → Result
  searched hostname servname h w none = err_quit
  searched hostname servname h w (some ss) =
      conclude hostname servname h (first_host ss)
        (search_each hostname h (length ss == 2) ss (looking [] none w))

  -- `uname` and the copy of the node's name.
  pub name_node : Hints → ℕ × List Addrinfo × World → Result
  name_node h (suc e, l, w) = failure (suc e) none w
  name_node h (zero, l, w) =
      let (ok, w') = alloc w in
      if has_canonname h.flags
      then elim sys.nodename [
        | none ↦ failure eai_system none w
        | some n ↦ if ok then success (set_canon n l) w' else failure eai_memory none w'
      ]
      else success l w

  -- The second structure of `ga_unix`, or the only one.
  abbrev pub second : Hints → Str → ℕ × List Addrinfo × World → ℕ × List Addrinfo × World
  second h path (suc e, l, w) = (suc e, l, w)
  second h path (zero, l, w) = ga_aistruct h path af_local l w

  unfoldable pub ga_unix : Str → Hints → World → Result
  unfolding name_node
  ga_unix path h w =
      if not (h.family == af_unspec) && not (h.family == af_local)
      then failure eai_addrfamily none w
      else if h.socktype == 0
      then name_node h (
          second (record h { socktype = sock_dgram }) path
            (ga_aistruct (record h { socktype = sock_stream }) path af_local [] w))
      else name_node h (ga_aistruct h path af_local [] w)

  abbrev pub text : Option Str → Str
  text none = []
  text (some s) = s

  abbrev pub default_hints : Hints
  default_hints = record { flags = 0; family = af_unspec; socktype = 0; protocol = 0 }

  abbrev pub hints_or_default : Option Hints → Hints
  hints_or_default none = default_hints
  hints_or_default (some h) = h

  unfoldable pub getaddrinfo : Option Str → Option Str → Option Hints → World → Result
  unfolding searched conclude named with_service search_each by_form from_host save_canon each_addr
      numeric
  getaddrinfo hostname servname hintsp w =
      let h = hints_or_default hintsp in
      let rc = ga_echeck hostname servname h.flags h.family h.socktype h.protocol in
      if not (rc == 0)
      then failure rc none w
      else if is_local_name hostname && is_path servname
      then ga_unix (text servname) h w
      else searched hostname servname h w (ga_nsearch hostname h)
